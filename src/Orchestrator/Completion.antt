-- ===== src/Orchestrator/Completion.antt =====
-- internal/orchestrator/runtocompletion.go: a goal is planned again, with its failures folded into its
-- text, for a bounded number of attempts.
use agent_builder.Common.{
  Bool, true, false, Option, none, some, List, [], ◌∷◌, ◌++◌, ℕ, zero, suc, ◌-◌, if◌then◌else◌,
}
use agent_builder.Common.Int.{ℤ, pos, pos_part, ◌+ℤ◌, ◌-ℤ◌}
use agent_builder.Common.Text.{codes, is_empty}
use agent_builder.Loop.{Io, ◌>>=◌, pure}
use agent_builder.Telegram.Authz.Ids.{format_int}
use agent_builder.Orchestrator.{GoalTask}
use agent_builder.Orchestrator.Core.{Fleet, Parts, Err, report}
use agent_builder.Orchestrator.Journal.{load_attempt_count, save_attempt_count}
use agent_builder.Orchestrator.Worker.{SubGoalOutcome}
use agent_builder.Orchestrator.Dispatch.{PlanResult}
use agent_builder.Orchestrator.Flow.{Answer, Schedule, empty_result, fold_goal_text, handle}
pub mod Laws
mod Tests

unfoldable pub any_failed : List SubGoalOutcome → Bool
any_failed [] = false
any_failed (oc ∷ ocs) = if oc.success then any_failed ocs else true

unfoldable pub has_terminal_failure : PlanResult → Bool
unfolding any_failed
has_terminal_failure r = any_failed r.outcomes

unfoldable pub details_of : List SubGoalOutcome → List (List ℕ)
details_of [] = []
details_of (oc ∷ ocs) =
    let rest = details_of ocs in
    let detail = if is_empty oc.detail then codes "sub-goal failed" else oc.detail in
    if oc.success then rest else detail ∷ rest

unfoldable pub failure_details : PlanResult → List (List ℕ)
unfolding details_of
failure_details r = details_of r.outcomes

-- How RunToCompletion ends: with what Handle returned, or exhausted after so many attempts.
pub data Ending : Type 0 where
  still_waiting : Ending
  ended : PlanResult → Err → Ending
  exhausted : PlanResult → ℤ → Ending

module _ {W C : Type 0} (o : Parts W) (goal : GoalTask) (schedules : ℤ → Schedule) where
  unfoldable pub escalate_exhausted : PlanResult → ℤ → Io (Fleet W C) Ending
  unfolding report format_int
  escalate_exhausted last attempt = do
    sent ← report o (
        codes "Goal "
        ++ (o.quote goal.id
            ++ (codes " exhausted after "
                ++ (format_int attempt ++ codes " attempts, escalating to human"))))
    pure (exhausted last attempt)

  -- Behind Handle. `again` is the next round, with the folded text and the last result.
  unfoldable pub after_handle :
      (List ℕ → PlanResult → Io (Fleet W C) Ending) → Answer → Io (Fleet W C) Ending
  unfolding has_terminal_failure failure_details fold_goal_text
  after_handle again none = pure still_waiting
  after_handle again (some (result, some e)) = pure (ended result (some e))
  after_handle again (some (result, none)) =
      if has_terminal_failure result
      then again (fold_goal_text goal.spec (failure_details result)) result
      else pure (ended result none)

  -- The loop, with the attempts that are left, the attempts made, the text of the goal and the last
  -- result.
  unfoldable pub rounds : ℕ → ℤ → List ℕ → PlanResult → Io (Fleet W C) Ending
  unfolding escalate_exhausted after_handle handle save_attempt_count ◌+ℤ◌
  rounds zero attempt spec last = escalate_exhausted last attempt
  rounds (suc left) attempt spec last = do
    saved ← save_attempt_count o goal.id (attempt +ℤ pos 1)
    answer ← handle o (record goal { spec = spec }) (schedules (attempt +ℤ pos 1))
    after_handle (rounds left (attempt +ℤ pos 1)) answer

  unfoldable pub run_to_completion : ℤ → Io (Fleet W C) Ending
  unfolding rounds load_attempt_count empty_result ◌-ℤ◌
  run_to_completion max_attempts = do
    attempt ← load_attempt_count o goal.id
    rounds (pos_part (max_attempts -ℤ attempt)) attempt goal.spec empty_result
