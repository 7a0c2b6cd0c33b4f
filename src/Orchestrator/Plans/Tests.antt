-- ===== src/Orchestrator/Plans/Tests.antt =====
-- A plan of one sub-goal.
use agent_builder.Common.{◌≡◌, [], ◌∷◌, ◌==◌, ◌&&◌, ◌||◌, not}
use agent_builder.Common.Text.{codes, text_eq, is_empty}
use agent_builder.Orchestrator.{Plan}
use agent_builder.Orchestrator.Plans.{authorizes_resource}
use agent_builder.Orchestrator.Plans.Laws.{has_recipe, has_task, authorizes_resource-names}

abbrev plan : Plan
plan = record {
  goal = codes "build it";
  goal_id = codes "g";
  sub_goals =
      record {
        recipe_name = codes "coding-agent";
        task = record { id = codes "g-0"; repo = codes "r"; spec = codes "build it" };
        target_repo = [];
        sink = [];
      }
      ∷ [];
}

authorizes_resource-names_example :
    authorizes_resource plan (codes "g-0")
    ≡ not (is_empty (codes "g-0"))
      && ((plan.goal_id == codes "g-0")
          || (has_recipe (codes "g-0") plan.sub_goals || has_task (codes "g-0") plan.sub_goals))
authorizes_resource-names_example = authorizes_resource-names plan (codes "g-0")
