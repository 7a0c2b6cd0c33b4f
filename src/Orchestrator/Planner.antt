-- ===== src/Orchestrator/Planner.antt =====
-- internal/orchestrator/planner.go, and `resolveRecipeName` of skills.go: a goal is decomposed into
-- sub-goals, line by line. `none` is an error. The registry of skills is an argument.
use Prim.Native.Nat.{◌/◌, ◌%◌}
use agent_builder.Common.{
  Bool, true, false, Option, none, some, List, [], ◌∷◌, ◌++◌, ℕ, zero, suc, ◌+◌, ◌==◌, ◌||◌, not,
  nat_eq, if◌then◌else◌, length,
}
use agent_builder.Common.Text.{codes, text_eq, trim_space, is_empty}
use agent_builder.Common.Search.{has_prefix, cut, split_on, has_char, is_among}
use agent_builder.Orchestrator.{GoalTask, SubGoal, Plan}
use agent_builder.Skill.{Manifest, Skills, select_for_goal}
pub mod Numbers
pub mod Laws
mod Tests

-- The known recipes are `none` where any prefix before a colon is accepted.
pub record StructuredPlanner : Type 0 where
  pub default_recipe : List ℕ
  pub known_recipes : Option (List (List ℕ))
  pub skills : Skills

abbrev default_recipe_name : List ℕ
default_recipe_name = codes "coding-agent"

unfoldable pub new_structured_planner : List (List ℕ) → Skills → StructuredPlanner
new_structured_planner known skills = record {
  default_recipe = default_recipe_name;
  known_recipes = elim known [ [] ↦ none | r ∷ rs ↦ some (r ∷ rs) ];
  skills = skills;
}

-- The loop of itoa, with the digits found so far; the fuel is at least `n`.
unfoldable pub itoa_digits : ℕ → ℕ → List ℕ → List ℕ
unfolding nat_eq
itoa_digits zero n digits = digits
itoa_digits (suc fuel) n digits =
    let more = itoa_digits fuel (n / 10) ((b'0' + n % 10) ∷ digits) in
    if n == 0 then digits else more

unfoldable pub itoa : ℕ → List ℕ
unfolding itoa_digits nat_eq
itoa n = if n == 0 then codes "0" else itoa_digits n n []

unfoldable pub sub_goal_id : List ℕ → ℕ → List ℕ
unfolding itoa
sub_goal_id goal_id idx = (if is_empty goal_id then codes "goal" else goal_id) ++ (b'-' ∷ itoa idx)

unfoldable pub is_known : Option (List (List ℕ)) → List ℕ → Bool
unfolding is_among
is_known none candidate = true
is_known (some known) candidate = is_among candidate known

-- The recipe that the line names, and the spec; the recipe is `none` where explicit is false.
unfoldable pub split_at :
    Option (List ℕ × List ℕ) → Option (List (List ℕ)) → List ℕ → Option (List ℕ) × List ℕ
unfolding trim_space has_char is_known
split_at none known line = (none, line)
split_at (some ([], after)) known line = (none, line)
split_at (some (c ∷ before, after)) known line =
    let candidate = trim_space (c ∷ before) in
    let rest = trim_space after in
    if is_empty candidate
      || (has_char b' ' candidate || (has_char b'\t' candidate || is_empty rest))
    then (none, line)
    else if is_known known candidate
    then (some candidate, rest)
    else (none, line)

unfoldable pub split_line : Option (List (List ℕ)) → List ℕ → Option (List ℕ) × List ℕ
unfolding cut split_at
split_line known line = split_at (cut b':' line) known line

unfoldable pub recipe_of_manifest : Option Manifest → Option (List ℕ)
recipe_of_manifest none = none
recipe_of_manifest (some m) = some m.recipe_name

unfoldable pub resolve_recipe_name : (List ℕ → List ℕ) → List ℕ → Skills → List ℕ → Option (List ℕ)
unfolding select_for_goal recipe_of_manifest
resolve_recipe_name to_lower text skills fallback =
    recipe_of_manifest (select_for_goal to_lower text skills fallback)

-- The lines of the spec that become sub-goals: trimmed, without the blank ones and the comments.
unfoldable pub kept_lines : List (List ℕ) → List (List ℕ)
unfolding trim_space has_prefix
kept_lines [] = []
kept_lines (raw ∷ lines) =
    let rest = kept_lines lines in
    let line = trim_space raw in
    if is_empty line || has_prefix line (codes "#") then rest else line ∷ rest

unfoldable pub add_planned : Option SubGoal → Option (List SubGoal) → Option (List SubGoal)
add_planned none rest = none
add_planned (some sub) none = none
add_planned (some sub) (some subs) = some (sub ∷ subs)

unfoldable pub planned : GoalTask → ℕ → Option (List ℕ) → List ℕ → Option SubGoal
unfolding sub_goal_id
planned goal idx none spec = none
planned goal idx (some recipe) spec = some (record {
  recipe_name = recipe;
  task = record { id = sub_goal_id goal.id idx; repo = goal.repo; spec = spec };
  target_repo = [];
  sink = [];
})

-- `resolve` is resolveRecipeName with the skills and the default recipe of the planner.
module _ (resolve : List ℕ → Option (List ℕ)) where
  unfoldable pub explicit_or : Option (List ℕ) → List ℕ → Option (List ℕ)
  explicit_or none spec = resolve spec
  explicit_or (some recipe) spec = some recipe

  unfoldable pub plan_line : Option (List (List ℕ)) → GoalTask → ℕ → List ℕ → Option SubGoal
  unfolding split_line explicit_or planned
  plan_line known goal idx line =
      let (recipe, spec) = split_line known line in planned goal idx (explicit_or recipe spec) spec

  unfoldable pub plan_lines :
      Option (List (List ℕ)) → GoalTask → ℕ → List (List ℕ) → Option (List SubGoal)
  unfolding plan_line add_planned
  plan_lines known goal idx [] = some []
  plan_lines known goal idx (line ∷ lines) =
      add_planned (plan_line known goal idx line) (plan_lines known goal (suc idx) lines)

  -- A spec without lines of its own becomes one sub-goal.
  unfoldable pub or_whole : GoalTask → Option (List SubGoal) → Option (List SubGoal)
  unfolding planned trim_space add_planned
  or_whole goal none = none
  or_whole goal (some []) =
      let spec = trim_space goal.spec in add_planned (planned goal 0 (resolve spec) spec) (some [])
  or_whole goal (some (sub ∷ subs)) = some (sub ∷ subs)

unfoldable pub plan_of : GoalTask → Option (List SubGoal) → Option Plan
plan_of goal none = none
plan_of goal (some subs) = some (record { goal = goal.spec; goal_id = goal.id; sub_goals = subs })

-- resolveRecipeName with the skills of the planner and its default recipe.
unfoldable pub resolver : (List ℕ → List ℕ) → StructuredPlanner → List ℕ → Option (List ℕ)
unfolding resolve_recipe_name
resolver to_lower p spec =
    resolve_recipe_name to_lower spec p.skills
      (if is_empty p.default_recipe then default_recipe_name else p.default_recipe)

unfoldable pub plan : (List ℕ → List ℕ) → StructuredPlanner → GoalTask → Option Plan
unfolding plan_of or_whole plan_lines kept_lines split_on resolver
plan to_lower p goal = plan_of goal (
    or_whole (resolver to_lower p) goal (
      plan_lines (resolver to_lower p) p.known_recipes goal 0
        (kept_lines (split_on b'\n' goal.spec))))
