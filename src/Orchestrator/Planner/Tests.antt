-- ===== src/Orchestrator/Planner/Tests.antt =====
-- A goal of two lines.
use agent_builder.Common.{◌≡◌, refl, none, some, List, [], ◌∷◌, ℕ, true, In, nat_eq}
use agent_builder.Common.Map.{lookup}
use agent_builder.Common.Search.{
  contains, cut, cut_found, has_char, has_prefix, onto_first, split_on,
}
use agent_builder.Common.Text.{codes, text_eq, trim_space, trim_left, trim_right, is_space}
use agent_builder.Skill.{
  Skills, first_match, insert_sorted, match_or, matches, mentions, names_of, select_for_goal,
}
use agent_builder.Orchestrator.{GoalTask, SubGoal, Plan}
use agent_builder.Orchestrator.Plans.{authorizes_resource}
use agent_builder.Orchestrator.Planner.{
  StructuredPlanner, add_planned, explicit_or, is_known, itoa, itoa_digits, kept_lines, or_whole,
  plan, plan_line, plan_lines, plan_of, planned, recipe_of_manifest, resolve_recipe_name, resolver,
  split_at, split_line, sub_goal_id,
}
use agent_builder.Orchestrator.Planner.Laws.{IsPlanOf, AreApart, plan-IsPlanOf, plan-AreApart}

abbrev skills : Skills
skills =
    (
      codes "coding-agent",
      record {
        name = codes "coding-agent";
        description = [];
        recipe_name = codes "coding-agent";
        required_permissions = [];
        gate_checks = [];
      },
    )
    ∷ []

abbrev planner : StructuredPlanner
planner = record { default_recipe = []; known_recipes = none; skills = skills }

abbrev goal : GoalTask
goal = record { id = codes "g"; repo = codes "r"; spec = codes "docs: a\n b" }

abbrev part : List ℕ → List ℕ → List ℕ → SubGoal
part id recipe spec = record {
  recipe_name = recipe;
  task = record { id = id; repo = codes "r"; spec = spec };
  target_repo = [];
  sink = [];
}

abbrev made : Plan
made = record {
  goal = goal.spec;
  goal_id = codes "g";
  sub_goals =
      part (codes "g-0") (codes "docs") (codes "a")
      ∷ part (codes "g-1") (codes "coding-agent") (codes "b")
      ∷ [];
}

made_lem : plan (λ s. s) planner goal ≡ some made
unfolding plan plan_of or_whole plan_lines plan_line kept_lines split_on onto_first resolver
    resolve_recipe_name recipe_of_manifest select_for_goal first_match match_or matches mentions
    names_of insert_sorted lookup add_planned planned explicit_or split_line split_at cut cut_found
    is_known has_char has_prefix trim_space trim_left trim_right is_space sub_goal_id itoa
    itoa_digits nat_eq text_eq contains
made_lem = refl

plan-IsPlanOf_example : IsPlanOf goal made
plan-IsPlanOf_example = plan-IsPlanOf (λ s. s) planner goal made made_lem

plan-AreApart_example :
    AreApart made.sub_goals
    × ((sub : SubGoal) → In sub made.sub_goals → authorizes_resource made sub.task.id ≡ true)
plan-AreApart_example = plan-AreApart (λ s. s) planner goal made made_lem
