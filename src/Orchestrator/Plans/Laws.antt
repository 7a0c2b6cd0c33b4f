-- ===== src/Orchestrator/Plans/Laws.antt =====
-- What a plan authorizes, said without the list.
use agent_builder.Common.{
  ◌≡◌, ap, Bool, true, false, List, [], ◌∷◌, ◌++◌, ℕ, ◌==◌, ◌&&◌, ◌||◌, not, arith, Bool-cases, inl,
  inr, eq_of_==,
}
use agent_builder.Common.Text.{text_eq, is_empty}
use agent_builder.Common.Search.{is_among}
use agent_builder.Orchestrator.{SubGoal, Plan}
use agent_builder.Orchestrator.Plans.{
  add_resource, add_recipes, add_tasks, allowed_resources, authorizes_resource,
}

is_among-append :
    (id x : List ℕ) (rs : List (List ℕ))
    → is_among id (rs ++ (x ∷ [])) ≡ is_among id rs || (x == id)
unfolding is_among
is_among-append id x [] = ground arith
is_among-append id x (r ∷ rs) = ground (arith, is_among-append id x rs)

same_empty : (x id : List ℕ) → (x == id) ≡ true → is_empty x ≡ is_empty id
same_empty x id h = ap is_empty (eq_of_== x id h)

is_among_same :
    (x id : List ℕ) (rs : List (List ℕ)) → (x == id) ≡ true → is_among x rs ≡ is_among id rs
is_among_same x id rs h = ap (λ y. is_among y rs) (eq_of_== x id h)

is_among-add_resource :
    (id x : List ℕ) (rs : List (List ℕ))
    → is_among id (add_resource x rs) ≡ is_among id rs || (not (is_empty id) && (x == id))
unfolding add_resource
is_among-add_resource id x rs = elim (Bool-cases (x == id)) [
  | inl same ↦
      ground (arith, same_empty x id same, is_among_same x id rs same, is_among-append id x rs)
  | inr other ↦ ground (arith, is_among-append id x rs)
]

-- Some sub-goal has the recipe; some sub-goal has the task.
unfoldable pub has_recipe : List ℕ → List SubGoal → Bool
unfolding text_eq
has_recipe id [] = false
has_recipe id (sub ∷ subs) = (sub.recipe_name == id) || has_recipe id subs

unfoldable pub has_task : List ℕ → List SubGoal → Bool
unfolding text_eq
has_task id [] = false
has_task id (sub ∷ subs) = (sub.task.id == id) || has_task id subs

is_among-add_recipes :
    (id : List ℕ) (subs : List SubGoal) (rs : List (List ℕ))
    → is_among id (add_recipes subs rs)
      ≡ is_among id rs || (not (is_empty id) && has_recipe id subs)
unfolding add_recipes has_recipe
is_among-add_recipes id [] rs = ground arith
is_among-add_recipes id (sub ∷ subs) rs = ground (
  arith,
  is_among-add_recipes id subs (add_resource sub.recipe_name rs),
  is_among-add_resource id sub.recipe_name rs,
)

is_among-add_tasks :
    (id : List ℕ) (subs : List SubGoal) (rs : List (List ℕ))
    → is_among id (add_tasks subs rs) ≡ is_among id rs || (not (is_empty id) && has_task id subs)
unfolding add_tasks has_task
is_among-add_tasks id [] rs = ground arith
is_among-add_tasks id (sub ∷ subs) rs = ground (
  arith,
  is_among-add_tasks id subs (add_resource sub.task.id rs),
  is_among-add_resource id sub.task.id rs,
)

-- A plan authorizes a resource exactly if its ID is not empty and is the ID of the goal, the recipe
-- of a sub-goal or the task of a sub-goal.
pub authorizes_resource-names :
    (p : Plan) (id : List ℕ)
    → authorizes_resource p id
      ≡ not (is_empty id)
        && ((p.goal_id == id) || (has_recipe id p.sub_goals || has_task id p.sub_goals))
unfolding authorizes_resource allowed_resources
authorizes_resource-names p id = ground (
  arith,
  is_among-add_tasks id p.sub_goals (add_recipes p.sub_goals (add_resource p.goal_id [])),
  is_among-add_recipes id p.sub_goals (add_resource p.goal_id []),
  is_among-add_resource id p.goal_id [],
)
