-- ===== src/Orchestrator/Example.antt =====
-- An orchestrator whose world is a list of the recipes it dispatched and a plan store in memory; its
-- policy engine allows everything.
use agent_builder.Common.{true, none, some, List, [], ◌∷◌, ℕ, ◌==◌}
use agent_builder.Common.Int.{pos}
use agent_builder.Common.Text.{codes, text_eq}
use agent_builder.Policy.{allow}
use agent_builder.Orchestrator.{GoalTask, SubGoal, Plan}
use agent_builder.Orchestrator.Plans.{MemoryPlanStore, put, get, delete_plan}
use agent_builder.Orchestrator.Core.{Parts, Fleet}

pub record World : Type 0 where
  pub log : List (List ℕ)
  pub plans : MemoryPlanStore

abbrev pub part : SubGoal
part = record {
  recipe_name = codes "coding-agent";
  task = record { id = codes "g-0"; repo = codes "r"; spec = codes "build it" };
  target_repo = [];
  sink = [];
}

abbrev pub goal : GoalTask
goal = record { id = codes "g"; repo = codes "r"; spec = codes "build it" }

abbrev pub plan : Plan
plan = record { goal = codes "build it"; goal_id = codes "g"; sub_goals = part ∷ [] }

abbrev pub parts : Parts World
parts = record {
  planner = λ t w. (some plan, w);
  scoper = none;
  decide = λ q w. (allow, w);
  report = λ t w. (none, w);
  store = record {
    put = λ p w. (tt, record w { plans = put p w.plans });
    get = λ id w. (get id w.plans, w);
    delete = λ id w. (tt, record w { plans = delete_plan id w.plans });
    tamper_aware = none;
  };
  audit_sink = none;
  run_store = none;
  dispatch =
      λ sub w. (record { err = none; approvals = [] }, record w { log = sub.recipe_name ∷ w.log });
  recipe_exists = λ name. name == codes "coding-agent";
  risk = codes "low";
  require_approval = true;
  now = λ w. pos 0;
  ctx_err = λ w. none;
  marshal = λ p. none;
  unmarshal = λ t. none;
  quote = λ t. t;
  to_lower = λ t. t;
  parse_url = λ t. some (t, []);
}

abbrev pub fleet : Fleet World ℕ
fleet = record {
  world = record { log = []; plans = [] };
  registry = none;
  worker_sem = some (record { held = 0; cap = 1 });
}
