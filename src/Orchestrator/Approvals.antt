-- ===== src/Orchestrator/Approvals.antt =====
-- internal/orchestrator/runstore.go: `ResumeApproval`, `finalizeAfterApproval`, on what the run store kept.
mod Only
mod Tests
use agent_builder.Common.{
  Bool, true, false, Option, none, some, List, [], ◌∷◌, ◌++◌, ℕ, ◌==◌, ◌&&◌, ◌||◌, not,
  if◌then◌else◌,
}
use agent_builder.Common.Text.{codes, text_eq}
use agent_builder.Loop.{Io, ◌>>=◌, pure}
use agent_builder.Runstore.{
  Record, AttemptState, PendingApproval, Status, running, awaiting_approval, completed, failed,
  needs_human,
}
use agent_builder.Orchestrator.{SubGoal, Plan}
use agent_builder.Orchestrator.Core.{
  Fleet, Parts, Err, RunStore, Loaded, load_failed, missing, loaded, outside, report, when,
}
use agent_builder.Orchestrator.Journal.{is_completed, save_quietly, record_attempt}
use agent_builder.Orchestrator.Worker.{Phase, waiting, finished, unaudited, step}

-- The pending approvals of other tasks, and whether one of the task was found.
unfoldable pub without_pending : List ℕ → List PendingApproval → Bool × List PendingApproval
unfolding text_eq
without_pending task_id [] = (false, [])
without_pending task_id (p ∷ ps) =
    let (found, kept) = without_pending task_id ps in
    if p.task_id == task_id then (true, kept) else (found, p ∷ kept)

-- The record without the approval; running, if it was given.
unfoldable pub resumed : Bool → List PendingApproval → Record → Record
resumed true kept r = record r { pending_approvals = kept; status = running }
resumed false kept r = record r { pending_approvals = kept }

unfoldable pub find_task : List ℕ → List SubGoal → Option SubGoal
unfolding text_eq
find_task task_id [] = none
find_task task_id (s ∷ subs) =
    let rest = find_task task_id subs in if s.task.id == task_id then some s else rest

unfoldable pub is_unresolved : Status → Bool
is_unresolved needs_human = true
is_unresolved failed = true
is_unresolved _ = false

unfoldable pub any_unresolved : List AttemptState → Bool
unfolding is_unresolved
any_unresolved [] = false
any_unresolved (a ∷ rest) = is_unresolved a.status || any_unresolved rest

unfoldable pub only_completed : List AttemptState → Bool
unfolding is_completed
only_completed [] = true
only_completed (a ∷ rest) = is_completed a.status && only_completed rest

unfoldable pub no_attempts : List AttemptState → Bool
no_attempts [] = true
no_attempts (_ ∷ _) = false

-- The status of a goal none of whose approvals is pending.
unfoldable pub final_status : List AttemptState → Status
unfolding any_unresolved only_completed no_attempts
final_status attempts =
    if any_unresolved attempts
    then failed
    else if not (no_attempts attempts) && only_completed attempts
    then completed
    else running

unfoldable pub is_final : Status → Bool
is_final completed = true
is_final failed = true
is_final _ = false

unfoldable pub status_text : Status → List ℕ
status_text completed = codes "completed"
status_text failed = codes "failed"
status_text _ = []

unfoldable pub outcome_of : Phase → Option Err
outcome_of (finished outcome) = some none
outcome_of (unaudited outcome e) = some (some e)
outcome_of _ = none

module _ {W C : Type 0} (o : Parts W) where
  -- dispatchOne by itself, in three steps; `none` is a call that still waits for a permit then.
  unfoldable pub dispatch_one : Plan → SubGoal → Bool → Io (Fleet W C) (Option Err)
  unfolding step outcome_of
  dispatch_one plan sub first = do
    gated ← step o plan sub first waiting
    started ← step o plan sub first gated
    ended ← step o plan sub first started
    pure (outcome_of ended)

  unfoldable pub report_final : List ℕ → Status → Io (Fleet W C) Unit
  unfolding report is_final status_text when
  report_final goal_id s = when (is_final s) (do
    sent ← report o (
        codes "Goal " ++ (o.quote goal_id ++ (codes " resolved after approval: " ++ status_text s)))
    pure tt)

  -- By the approvals that are still pending.
  unfoldable pub finalize_pending :
      RunStore W → List ℕ → Record → List PendingApproval → Io (Fleet W C) Unit
  unfolding save_quietly final_status report_final
  finalize_pending rs goal_id r (p ∷ ps) =
      save_quietly rs (some (record r { status = awaiting_approval }))
  finalize_pending rs goal_id r [] = do
    saved ← save_quietly rs (some (record r { status = final_status r.attempts }))
    report_final goal_id (final_status r.attempts)

  unfoldable pub finalize_found : RunStore W → List ℕ → Loaded → Io (Fleet W C) Unit
  unfolding finalize_pending
  finalize_found rs goal_id (loaded r) = finalize_pending rs goal_id r r.pending_approvals
  finalize_found rs goal_id _ = pure tt

  unfoldable pub finalize_after_approval : RunStore W → List ℕ → Io (Fleet W C) Unit
  unfolding outside finalize_found
  finalize_after_approval rs goal_id = do
    found ← outside (rs.load goal_id)
    finalize_found rs goal_id found

  -- `none` is a call that still waits; otherwise the error.
  unfoldable pub after_one : RunStore W → List ℕ → Option Err → Io (Fleet W C) (Option Err)
  unfolding finalize_after_approval
  after_one rs goal_id none = pure none
  after_one rs goal_id (some (some e)) =
      pure (some (some (codes "orchestrator: ResumeApproval: re-dispatch task: " ++ e)))
  after_one rs goal_id (some none) = do
    finalized ← finalize_after_approval rs goal_id
    pure (some none)

  unfoldable pub dispatch_found :
      RunStore W → List ℕ → Bool → Plan → Option SubGoal → Io (Fleet W C) (Option Err)
  unfolding dispatch_one after_one
  dispatch_found rs goal_id first plan none = pure (
      some (
        some (codes "orchestrator: ResumeApproval: task not in plan for goal " ++ o.quote goal_id)))
  dispatch_found rs goal_id first plan (some sub) = do
    result ← dispatch_one plan sub first
    after_one rs goal_id result

  unfoldable pub approve_plan :
      RunStore W → List ℕ → List ℕ → Bool → Option Plan → Io (Fleet W C) (Option Err)
  unfolding dispatch_found find_task
  approve_plan rs goal_id task_id first none =
      pure (some (some (codes "orchestrator: ResumeApproval: unmarshal plan")))
  approve_plan rs goal_id task_id first (some plan) =
      dispatch_found rs goal_id first plan (find_task task_id plan.sub_goals)

  unfoldable pub answer_pending :
      RunStore W → List ℕ → List ℕ → Bool → Bool → Record → Io (Fleet W C) (Option Err)
  unfolding approve_plan record_attempt finalize_after_approval
  answer_pending rs goal_id task_id true first r =
      approve_plan rs goal_id task_id first (o.unmarshal r.plan)
  answer_pending rs goal_id task_id false first r = do
    recorded ← record_attempt o goal_id task_id needs_human (codes "denied by operator")
    finalized ← finalize_after_approval rs goal_id
    pure (some none)

  unfoldable pub resume_kept :
      RunStore W
      → List ℕ
      → List ℕ
      → Bool
      → Bool
      → Record
      → Bool × List PendingApproval
      → Io (Fleet W C) (Option Err)
  unfolding save_quietly resumed answer_pending
  resume_kept rs goal_id task_id approved first r (false, kept) =
      pure (some (some (codes "orchestrator: ResumeApproval: no pending approval")))
  resume_kept rs goal_id task_id approved first r (true, kept) = do
    saved ← save_quietly rs (some (resumed approved kept r))
    answer_pending rs goal_id task_id approved first r

  unfoldable pub resume_loaded :
      RunStore W → List ℕ → List ℕ → Bool → Bool → Loaded → Io (Fleet W C) (Option Err)
  unfolding resume_kept without_pending
  resume_loaded rs goal_id task_id approved first load_failed =
      pure (some (some (codes "orchestrator: ResumeApproval: load goal")))
  resume_loaded rs goal_id task_id approved first missing =
      pure (some (some (codes "orchestrator: ResumeApproval: no record for goal")))
  resume_loaded rs goal_id task_id approved first (loaded r) =
      resume_kept rs goal_id task_id approved first r (without_pending task_id r.pending_approvals)

  unfoldable pub resume_approval_in :
      Option (RunStore W) → List ℕ → List ℕ → Bool → Bool → Io (Fleet W C) (Option Err)
  unfolding outside resume_loaded
  resume_approval_in none goal_id task_id approved first =
      pure (some (some (codes "orchestrator: ResumeApproval: no run store configured")))
  resume_approval_in (some rs) goal_id task_id approved first = do
    found ← outside (rs.load goal_id)
    resume_loaded rs goal_id task_id approved first found

  unfoldable pub resume_approval : List ℕ → List ℕ → Bool → Bool → Io (Fleet W C) (Option Err)
  unfolding resume_approval_in
  resume_approval = resume_approval_in o.run_store
