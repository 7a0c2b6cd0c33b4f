-- ===== src/Orchestrator/Plans.antt =====
-- What a plan authorizes (`AllowedResources` and `authorizesResource` of
-- internal/orchestrator/orchestrator.go), and internal/orchestrator/store.go.
use agent_builder.Common.{
  Bool, true, false, Option, none, some, List, [], ◌∷◌, ◌++◌, ℕ, ◌==◌, if◌then◌else◌,
}
use agent_builder.Common.Map.{Map, lookup, insert, delete}
use agent_builder.Common.Text.{text_eq, is_empty}
use agent_builder.Common.Search.{is_among}
use agent_builder.Orchestrator.{SubGoal, Plan}
pub mod Laws
mod Tests

-- The closure `add`; the map `seen` holds what `ordered` lists.
unfoldable pub add_resource : List ℕ → List (List ℕ) → List (List ℕ)
unfolding is_among
add_resource id ordered =
    if is_empty id then ordered else if is_among id ordered then ordered else ordered ++ (id ∷ [])

unfoldable pub add_recipes : List SubGoal → List (List ℕ) → List (List ℕ)
unfolding add_resource
add_recipes [] ordered = ordered
add_recipes (sub ∷ subs) ordered = add_recipes subs (add_resource sub.recipe_name ordered)

unfoldable pub add_tasks : List SubGoal → List (List ℕ) → List (List ℕ)
unfolding add_resource
add_tasks [] ordered = ordered
add_tasks (sub ∷ subs) ordered = add_tasks subs (add_resource sub.task.id ordered)

unfoldable pub allowed_resources : Plan → List (List ℕ)
unfolding add_resource add_recipes add_tasks
allowed_resources p = add_tasks p.sub_goals (add_recipes p.sub_goals (add_resource p.goal_id []))

unfoldable pub authorizes_resource : Plan → List ℕ → Bool
unfolding is_among allowed_resources
authorizes_resource p id = is_among id (allowed_resources p)

abbrev pub MemoryPlanStore : Type 0
MemoryPlanStore = Map (List ℕ) Plan

unfoldable pub new_memory_plan_store : MemoryPlanStore
new_memory_plan_store = []

unfoldable pub put : Plan → MemoryPlanStore → MemoryPlanStore
unfolding insert text_eq
put plan plans = insert plan.goal_id plan plans

unfoldable pub get : List ℕ → MemoryPlanStore → Option Plan
unfolding lookup text_eq
get id plans = lookup id plans

unfoldable pub delete_plan : List ℕ → MemoryPlanStore → MemoryPlanStore
unfolding delete text_eq
delete_plan id plans = delete id plans
