-- ===== src/Orchestrator/Completion/Laws.antt =====
-- How RunToCompletion ends.
use agent_builder.Common.{
  ◌≡◌, true, false, none, some, List, [], ◌∷◌, ℕ, zero, suc, inl, inr, Bool-cases, true_not_false,
  arith, All, sym, ◌∙◌, if◌then◌else◌,
}
use agent_builder.Common.Int.{ℤ, pos, pos_part, neg_part, ◌+ℤ◌, ◌-ℤ◌, lt_int, ℤ_antisym, int_laws}
use agent_builder.Orchestrator.{GoalTask}
use agent_builder.Orchestrator.Core.{Fleet, Parts}
use agent_builder.Orchestrator.Journal.{load_attempt_count, save_attempt_count}
use agent_builder.Orchestrator.Worker.{SubGoalOutcome}
use agent_builder.Orchestrator.Dispatch.{PlanResult}
use agent_builder.Orchestrator.Flow.{Answer, Schedule, empty_result, handle}
use agent_builder.Orchestrator.Completion.{
  any_failed, has_terminal_failure, Ending, still_waiting, ended, exhausted, escalate_exhausted,
  after_handle, rounds, run_to_completion,
}

-- Every worker succeeded.
unfoldable pub AllSucceeded : PlanResult → Type 0
AllSucceeded r = All (λ oc. oc.success ≡ true) r.outcomes

any_failed-none :
    (ocs : List SubGoalOutcome) → any_failed ocs ≡ false → All (λ oc. oc.success ≡ true) ocs
unfolding any_failed
any_failed-none [] h = tt
any_failed-none (oc ∷ ocs) h = elim (Bool-cases oc.success) [
  | inl good ↦ (good, any_failed-none ocs (rw good at h))
  | inr bad ↦ absurd (true_not_false (rw bad at h))
]

-- The ways a call may end when it may make attempts up to a bound.
unfoldable pub EndsWithin : ℤ → Ending → Type 0
EndsWithin bound still_waiting = Unit
EndsWithin bound (ended result (some e)) = Unit
EndsWithin bound (ended result none) = AllSucceeded result
EndsWithin bound (exhausted last attempts) = attempts ≡ bound

+ℤ-zero : (a : ℤ) → a +ℤ pos 0 ≡ a
+ℤ-zero a = ℤ_antisym (a +ℤ pos 0) a (omega int_laws) (omega int_laws)

+ℤ-next : (a : ℤ) (n : ℕ) → (a +ℤ pos 1) +ℤ pos n ≡ a +ℤ pos (suc n)
+ℤ-next a n = ℤ_antisym ((a +ℤ pos 1) +ℤ pos n) (a +ℤ pos (suc n)) (omega int_laws) (omega int_laws)

-- A difference is above zero if the first number is above the second, and not otherwise.
above_lem : (a b : ℤ) → lt_int b a ≡ true → neg_part (a -ℤ b) ≡ 0
unfolding lt_int ◌-ℤ◌
above_lem a b h = ground arith

below_lem : (a b : ℤ) → lt_int b a ≡ false → pos_part (a -ℤ b) ≡ 0
unfolding lt_int ◌-ℤ◌
below_lem a b h = ground arith

-- The rounds up to a maximum end at it, or where they began.
reached : (max a : ℤ) → a +ℤ pos (pos_part (max -ℤ a)) ≡ (if lt_int a max then max else a)
reached max a = elim (Bool-cases (lt_int a max)) [
  | inl less ↦
      let above = above_lem max a less in
      rw less (
        ℤ_antisym (a +ℤ pos (pos_part (max -ℤ a))) max (omega (int_laws, above))
          (omega (int_laws, above)))
  | inr over ↦
      let below = below_lem max a over in
      rw over (
        ℤ_antisym (a +ℤ pos (pos_part (max -ℤ a))) a (omega (int_laws, below))
          (omega (int_laws, below)))
]

module _ {W C : Type 0} (o : Parts W) (goal : GoalTask) (schedules : ℤ → Schedule) where
  after_handle-EndsWithin :
      (bound : ℤ) (again : List ℕ → PlanResult → Fleet W C → Ending × Fleet W C) (answer : Answer)
      (f : Fleet W C)
      → ((spec : List ℕ) (last : PlanResult) (g : Fleet W C)
          → EndsWithin bound (again spec last g).0)
      → EndsWithin bound (after_handle o goal schedules again answer f).0
  unfolding after_handle EndsWithin AllSucceeded has_terminal_failure
  after_handle-EndsWithin bound again none f h = tt
  after_handle-EndsWithin bound again (some (result, some e)) f h = tt
  after_handle-EndsWithin bound again (some (result, none)) f h =
      elim (Bool-cases (any_failed result.outcomes)) [
        | inl bad ↦ rw bad (h _ result f)
        | inr good ↦ rw good (any_failed-none result.outcomes good)
      ]

  rounds-EndsWithin :
      (left : ℕ) (attempt bound : ℤ) (spec : List ℕ) (last : PlanResult) (f : Fleet W C)
      → attempt +ℤ pos left ≡ bound
      → EndsWithin bound (rounds o goal schedules left attempt spec last f).0
  unfolding rounds escalate_exhausted EndsWithin
  rounds-EndsWithin zero attempt bound spec last f h = sym (+ℤ-zero attempt) ∙ h
  rounds-EndsWithin (suc left) attempt bound spec last f h =
      let saved = (save_attempt_count o goal.id (attempt +ℤ pos 1) f).1 in
      let (answer, g) =
        handle o (record goal { spec = spec }) (schedules (attempt +ℤ pos 1)) saved in
      after_handle-EndsWithin bound (rounds o goal schedules left (attempt +ℤ pos 1)) answer g
        (λ s l k. rounds-EndsWithin left (attempt +ℤ pos 1) bound s l k (+ℤ-next attempt left ∙ h))

  -- RunToCompletion returns no error only with a result in which no worker failed, unless a Handle
  -- waits for its workers; and if the attempts are exhausted, their number is the maximum given, or the
  -- number loaded from the run store if that was no less at first.
  pub run_to_completion-EndsWithin :
      (max_attempts : ℤ) (f : Fleet W C)
      → let loaded = (load_attempt_count o goal.id f).0 in
        EndsWithin
          (if lt_int loaded max_attempts then max_attempts else loaded)
          (run_to_completion o goal schedules max_attempts f).0
  unfolding run_to_completion
  run_to_completion-EndsWithin max_attempts f =
      let (loaded, g) = load_attempt_count o goal.id f in
      rounds-EndsWithin (pos_part (max_attempts -ℤ loaded)) loaded _ goal.spec empty_result g
        (reached max_attempts loaded)
