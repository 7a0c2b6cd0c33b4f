-- ===== src/Orchestrator/Planner/Laws.antt =====
-- What the sub-goals of a plan have from their goal.
use agent_builder.Common.{
  ◌≡◌, refl, sym, ap, ◌∙◌, subst, true, false, Option, none, some, List, [], ◌∷◌, ℕ, suc, ◌==◌, ◌<◌,
  ◌≢◌, ==-refl, arith, inl, inr, length, All, In, some_inj,
}
use agent_builder.Common.Text.{text_eq, is_empty, trim_space}
use agent_builder.Common.Search.{split_on}
use agent_builder.Orchestrator.{GoalTask, SubGoal, Plan}
use agent_builder.Orchestrator.Plans.{authorizes_resource}
use agent_builder.Orchestrator.Plans.Laws.{authorizes_resource-names, has_task}
use agent_builder.Orchestrator.Planner.{
  StructuredPlanner, sub_goal_id, add_planned, planned, plan_line, plan_lines, or_whole, plan_of,
  plan, kept_lines, resolver,
}
use agent_builder.Orchestrator.Planner.Numbers.{sub_goal_id_inj, is_empty-sub_goal_id}

-- The sub-goal with a number: its task belongs to the repository of the goal, and it names no target
-- and no sink of its own.
pub record IsPart (goal : GoalTask) (idx : ℕ) (sub : SubGoal) : Type 0 where
  pub id : sub.task.id ≡ sub_goal_id goal.id idx
  pub repo : sub.task.repo ≡ goal.repo
  pub no_target : sub.target_repo ≡ []
  pub no_sink : sub.sink ≡ []

-- The parts of a goal from a number on.
unfoldable pub AreParts : GoalTask → ℕ → List SubGoal → Type 0
AreParts goal idx [] = Unit
AreParts goal idx (sub ∷ subs) = IsPart goal idx sub × AreParts goal (suc idx) subs

planned-IsPart :
    (goal : GoalTask) (idx : ℕ) (recipe : Option (List ℕ)) (spec : List ℕ) (sub : SubGoal)
    → planned goal idx recipe spec ≡ some sub
    → IsPart goal idx sub
unfolding planned
planned-IsPart goal idx none spec sub h = absurd cc
planned-IsPart goal idx (some recipe) spec sub h =
    subst (IsPart goal idx) (some_inj h)
      (record { id = refl; repo = refl; no_target = refl; no_sink = refl })

add_planned-AreParts :
    (goal : GoalTask) (idx : ℕ) (first : Option SubGoal) (rest : Option (List SubGoal))
    (subs : List SubGoal)
    → add_planned first rest ≡ some subs
    → ((sub : SubGoal) → first ≡ some sub → IsPart goal idx sub)
    → ((ss : List SubGoal) → rest ≡ some ss → AreParts goal (suc idx) ss)
    → AreParts goal idx subs × (0 < length subs)
unfolding add_planned AreParts
add_planned-AreParts goal idx none rest subs h p q = absurd cc
add_planned-AreParts goal idx (some sub) none subs h p q = absurd cc
add_planned-AreParts goal idx (some sub) (some ss) subs h p q =
    subst (λ x. AreParts goal idx x × (0 < length x)) (some_inj h)
      ((p sub refl, q ss refl), omega arith)

module _ (resolve : List ℕ → Option (List ℕ)) (goal : GoalTask) where
  plan_line-IsPart :
      (known : Option (List (List ℕ))) (idx : ℕ) (line : List ℕ) (sub : SubGoal)
      → plan_line resolve known goal idx line ≡ some sub
      → IsPart goal idx sub
  unfolding plan_line
  plan_line-IsPart known idx line sub h = planned-IsPart goal idx _ _ sub h

  plan_lines-AreParts :
      (known : Option (List (List ℕ))) (idx : ℕ) (lines : List (List ℕ)) (subs : List SubGoal)
      → plan_lines resolve known goal idx lines ≡ some subs
      → AreParts goal idx subs
  unfolding plan_lines AreParts
  plan_lines-AreParts known idx [] subs h = subst (AreParts goal idx) (some_inj h) tt
  plan_lines-AreParts known idx (line ∷ lines) subs h =
      (add_planned-AreParts goal idx _ _ subs h (plan_line-IsPart known idx line)
        (plan_lines-AreParts known (suc idx) lines)).0

  or_whole-AreParts :
      (o : Option (List SubGoal)) (subs : List SubGoal)
      → ((ss : List SubGoal) → o ≡ some ss → AreParts goal 0 ss)
      → or_whole resolve goal o ≡ some subs
      → AreParts goal 0 subs × (0 < length subs)
  unfolding or_whole AreParts
  or_whole-AreParts none subs p h = absurd cc
  or_whole-AreParts (some []) subs p h =
      add_planned-AreParts goal 0 (planned goal 0 (resolve (trim_space goal.spec)) _) (some []) subs
        h (planned-IsPart goal 0 _ _) (λ ss e. subst (AreParts goal 1) (some_inj e) tt)
  or_whole-AreParts (some (sub ∷ ss)) subs p h =
      subst (λ x. AreParts goal 0 x × (0 < length x)) (some_inj h) (p (sub ∷ ss) refl, omega arith)

-- What a plan is made from.
pub record IsPlanOf (goal : GoalTask) (q : Plan) : Type 0 where
  pub id : q.goal_id ≡ goal.id
  pub text : q.goal ≡ goal.spec
  pub some_parts : 0 < length q.sub_goals
  pub parts : AreParts goal 0 q.sub_goals

plan_of-IsPlanOf :
    (goal : GoalTask) (o : Option (List SubGoal)) (q : Plan)
    → ((subs : List SubGoal) → o ≡ some subs → AreParts goal 0 subs × (0 < length subs))
    → plan_of goal o ≡ some q
    → IsPlanOf goal q
unfolding plan_of
plan_of-IsPlanOf goal none q p h = absurd cc
plan_of-IsPlanOf goal (some subs) q p h =
    let (parts, some_parts) = p subs refl in
    subst (IsPlanOf goal) (some_inj h)
      (record { id = refl; text = refl; some_parts = some_parts; parts = parts })

-- A plan that Plan returns has the ID and the text of the goal and at least one sub-goal; its
-- sub-goals are numbered from 0 on, and each has the repository of the goal, and neither a target nor
-- a sink of its own.
pub plan-IsPlanOf :
    (to_lower : List ℕ → List ℕ) (p : StructuredPlanner) (goal : GoalTask) (q : Plan)
    → plan to_lower p goal ≡ some q
    → IsPlanOf goal q
unfolding plan
plan-IsPlanOf to_lower p goal q h =
    let resolve = resolver to_lower p in
    let lines = kept_lines (split_on b'\n' goal.spec) in
    let parts = plan_lines-AreParts resolve goal p.known_recipes 0 lines in
    let planned_lines = plan_lines resolve p.known_recipes goal 0 lines in
    plan_of-IsPlanOf goal (or_whole resolve goal planned_lines) q
      (λ subs. or_whole-AreParts resolve goal planned_lines subs parts) h

-- No two of the sub-goals have the same task.
unfoldable pub AreApart : List SubGoal → Type 0
AreApart [] = Unit
AreApart (sub ∷ subs) = All (λ t. sub.task.id ≢ t.task.id) subs × AreApart subs

later_apart :
    (goal : GoalTask) (i j : ℕ) (sub : SubGoal) (subs : List SubGoal)
    → IsPart goal i sub
    → i < j
    → AreParts goal j subs
    → All (λ t. sub.task.id ≢ t.task.id) subs
unfolding AreParts
later_apart goal i j sub [] p h k = tt
later_apart goal i j sub (t ∷ ts) p h (k, ks) =
    let differ : i ≢ j = λ e. absurd (omega arith) in
    (
      λ same. differ (sub_goal_id_inj goal.id i j (sym p.id ∙ same ∙ k.id)),
      later_apart goal i (suc j) sub ts p (omega arith) ks,
    )

parts_apart : (goal : GoalTask) (i : ℕ) (subs : List SubGoal) → AreParts goal i subs → AreApart subs
unfolding AreParts AreApart
parts_apart goal i [] h = tt
parts_apart goal i (sub ∷ subs) (h, hs) =
    (later_apart goal i (suc i) sub subs h (omega arith) hs, parts_apart goal (suc i) subs hs)

has_task-In : (sub : SubGoal) (subs : List SubGoal) → In sub subs → has_task sub.task.id subs ≡ true
unfolding has_task
has_task-In sub [] h = absurd h
has_task-In sub (t ∷ ts) (inl e) =
    rw (ap (λ x. x.task.id == sub.task.id) (sym e) ∙ ==-refl sub.task.id) refl
has_task-In sub (t ∷ ts) (inr h) = rw (has_task-In sub ts h) (ground arith)

parts_named :
    (goal : GoalTask) (i : ℕ) (sub : SubGoal) (subs : List SubGoal)
    → AreParts goal i subs
    → In sub subs
    → is_empty sub.task.id ≡ false
unfolding AreParts
parts_named goal i sub [] h k = absurd k
parts_named goal i sub (t ∷ ts) (h, hs) (inl e) =
    ap (λ x. is_empty x.task.id) e ∙ ap is_empty h.id ∙ is_empty-sub_goal_id goal.id i
parts_named goal i sub (t ∷ ts) (h, hs) (inr k) = parts_named goal (suc i) sub ts hs k

-- The tasks of a plan that Plan returns are told apart by their IDs, and the plan authorizes each of
-- them.
pub plan-AreApart :
    (to_lower : List ℕ → List ℕ) (p : StructuredPlanner) (goal : GoalTask) (q : Plan)
    → plan to_lower p goal ≡ some q
    → AreApart q.sub_goals
      × ((sub : SubGoal) → In sub q.sub_goals → authorizes_resource q sub.task.id ≡ true)
plan-AreApart to_lower p goal q h =
    let made = plan-IsPlanOf to_lower p goal q h in
    (
      parts_apart goal 0 q.sub_goals made.parts,
      λ sub k.
          authorizes_resource-names q sub.task.id
          ∙ (rw (parts_named goal 0 sub q.sub_goals made.parts k, has_task-In sub q.sub_goals k)
              (ground arith)),
    )
