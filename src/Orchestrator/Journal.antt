-- ===== src/Orchestrator/Journal.antt =====
-- internal/orchestrator/runstore.go, and the two functions of runtocompletion.go that count attempts:
-- what the orchestrator writes to the run store. Without a run store they do nothing.
use agent_builder.Common.{
  Bool, true, false, Option, none, some, List, [], ◌∷◌, ◌++◌, ℕ, ◌==◌, ◌&&◌, ◌||◌, not, nat_eq,
  if◌then◌else◌,
}
use agent_builder.Common.Int.{ℤ, pos, int_eq}
use agent_builder.Common.Text.{codes, text_eq}
use agent_builder.Loop.{Io, ◌>>=◌, pure}
use agent_builder.Runstore.{
  Record, AttemptState, Status, running, awaiting_approval, completed, unset, bare_record,
}
use agent_builder.Orchestrator.{SubGoal, Plan}
use agent_builder.Orchestrator.Core.{
  Fleet, Parts, RunStore, Loaded, load_failed, missing, loaded, Err, outside, see, report,
}

-- An upsert on the task, by attempt 1.
unfoldable pub put_attempt : ℤ → List ℕ → Status → List ℕ → List AttemptState → List AttemptState
unfolding text_eq int_eq
put_attempt now task_id status detail [] =
    record {
      task_id = task_id;
      attempt = pos 1;
      status = status;
      detail = detail;
      updated_at = now;
    }
    ∷ []
put_attempt now task_id status detail (a ∷ rest) =
    let later = put_attempt now task_id status detail rest in
    if (a.task_id == task_id) && (a.attempt == pos 1)
    then record a { status = status; detail = detail; updated_at = now } ∷ rest
    else a ∷ later

unfoldable pub is_completed : Status → Bool
is_completed completed = true
is_completed _ = false

unfoldable pub awaits : Status → Bool
awaits awaiting_approval = true
awaits _ = false

-- completed[id], for the map made of the attempts.
unfoldable pub has_completed : List AttemptState → List ℕ → Bool
unfolding is_completed text_eq
has_completed [] task_id = false
has_completed (a ∷ rest) task_id =
    (is_completed a.status && (a.task_id == task_id)) || has_completed rest task_id

unfoldable pub all_completed : List AttemptState → List SubGoal → Bool
unfolding has_completed
all_completed attempts [] = true
all_completed attempts (s ∷ subs) = has_completed attempts s.task.id && all_completed attempts subs

unfoldable pub all_done : List AttemptState → List SubGoal → Bool
unfolding all_completed
all_done attempts [] = false
all_done attempts (s ∷ subs) = all_completed attempts (s ∷ subs)

-- The attempts of a record, or of a new one; `none` is an error of Load.
unfoldable pub record_or_new : List ℕ → Status → Loaded → Option Record
unfolding bare_record
record_or_new goal_id status load_failed = none
record_or_new goal_id status missing = some (bare_record goal_id status)
record_or_new goal_id status (loaded r) = some r

unfoldable pub attempt_of : Loaded → ℤ
attempt_of (loaded r) = r.attempt
attempt_of _ = pos 0

unfoldable pub is_awaiting : Loaded → Bool
unfolding awaits
is_awaiting (loaded r) = awaits r.status
is_awaiting _ = false

-- On an error of Load too a new record is made.
unfoldable pub record_or_bare : List ℕ → Loaded → Record
unfolding bare_record
record_or_bare goal_id (loaded r) = r
record_or_bare goal_id _ = bare_record goal_id running

unfoldable pub attempted : ℤ → List ℕ → Status → List ℕ → Option Record → Option Record
unfolding put_attempt
attempted now task_id status detail none = none
attempted now task_id status detail (some r) =
    some (record r { attempts = put_attempt now task_id status detail r.attempts })

unfoldable pub asked : ℤ → List ℕ → List ℕ → Option Record → Option Record
asked now task_id reason none = none
asked now task_id reason (some r) = some (record r {
  pending_approvals =
      r.pending_approvals
      ++ (record { task_id = task_id; reason = reason; requested_at = now; escalated = false }
          ∷ []);
  status = awaiting_approval;
})

-- The record that finalizeGoalStatus saves, if any.
unfoldable pub finalized : List SubGoal → Loaded → Option Record
unfolding all_done awaits is_completed
finalized subs (loaded r) =
    if awaits r.status
    then none
    else if all_done r.attempts subs && not (is_completed r.status)
    then some (record r { status = completed })
    else none
finalized subs _ = none

module _ {W C : Type 0} where
  unfoldable pub save_quietly : RunStore W → Option Record → Io (Fleet W C) Unit
  unfolding outside
  save_quietly rs none = pure tt
  save_quietly rs (some r) = do err ← outside (rs.save r); pure tt

module _ {W C : Type 0} (o : Parts W) where
  unfoldable pub record_attempt_in :
      Option (RunStore W) → List ℕ → List ℕ → Status → List ℕ → Io (Fleet W C) Unit
  unfolding outside see save_quietly attempted record_or_new
  record_attempt_in none goal_id task_id status detail = pure tt
  record_attempt_in (some rs) goal_id task_id status detail = do
    found ← outside (rs.load goal_id)
    now ← see o.now
    save_quietly rs (attempted now task_id status detail (record_or_new goal_id running found))

  unfoldable pub record_attempt : List ℕ → List ℕ → Status → List ℕ → Io (Fleet W C) Unit
  unfolding record_attempt_in
  record_attempt = record_attempt_in o.run_store

  unfoldable pub record_pending_approval_in :
      Option (RunStore W) → List ℕ → List ℕ → List ℕ → Io (Fleet W C) Unit
  unfolding outside see save_quietly asked record_or_new
  record_pending_approval_in none goal_id task_id reason = pure tt
  record_pending_approval_in (some rs) goal_id task_id reason = do
    found ← outside (rs.load goal_id)
    now ← see o.now
    save_quietly rs (asked now task_id reason (record_or_new goal_id unset found))

  unfoldable pub record_pending_approval : List ℕ → List ℕ → List ℕ → Io (Fleet W C) Unit
  unfolding record_pending_approval_in
  record_pending_approval = record_pending_approval_in o.run_store

  unfoldable pub finalize_goal_status_in : Option (RunStore W) → Plan → Io (Fleet W C) Unit
  unfolding outside save_quietly finalized
  finalize_goal_status_in none plan = pure tt
  finalize_goal_status_in (some rs) plan = do
    found ← outside (rs.load plan.goal_id)
    save_quietly rs (finalized plan.sub_goals found)

  unfoldable pub finalize_goal_status : Plan → Io (Fleet W C) Unit
  unfolding finalize_goal_status_in
  finalize_goal_status = finalize_goal_status_in o.run_store

  unfoldable pub plan_awaiting_approval_in : Option (RunStore W) → List ℕ → Io (Fleet W C) Bool
  unfolding outside is_awaiting
  plan_awaiting_approval_in none goal_id = pure false
  plan_awaiting_approval_in (some rs) goal_id = do
    found ← outside (rs.load goal_id)
    pure (is_awaiting found)

  unfoldable pub plan_awaiting_approval : List ℕ → Io (Fleet W C) Bool
  unfolding plan_awaiting_approval_in
  plan_awaiting_approval = plan_awaiting_approval_in o.run_store

  unfoldable pub report_failed_save : Err → List ℕ → Io (Fleet W C) Unit
  unfolding report
  report_failed_save none goal_id = pure tt
  report_failed_save (some e) goal_id = do
    sent ← report o (codes "run-journal: persist plan " ++ (o.quote goal_id ++ (codes ": " ++ e)))
    pure tt

  -- With what json.Marshal made of the plan.
  unfoldable pub persist_marshalled : Option (List ℕ) → RunStore W → Plan → Io (Fleet W C) Unit
  unfolding report outside report_failed_save attempt_of bare_record
  persist_marshalled none rs plan = do
    sent ← report o (codes "run-journal: marshal plan " ++ o.quote plan.goal_id)
    pure tt
  persist_marshalled (some text) rs plan = do
    found ← outside (rs.load plan.goal_id)
    err ← outside (
        rs.save (record (bare_record plan.goal_id running) {
          goal = plan.goal;
          plan = some text;
          attempt = attempt_of found;
        }))
    report_failed_save err plan.goal_id

  unfoldable pub persist_plan_record_in : Option (RunStore W) → Plan → Io (Fleet W C) Unit
  unfolding persist_marshalled
  persist_plan_record_in none plan = pure tt
  persist_plan_record_in (some rs) plan = persist_marshalled (o.marshal plan) rs plan

  unfoldable pub persist_plan_record : Plan → Io (Fleet W C) Unit
  unfolding persist_plan_record_in
  persist_plan_record = persist_plan_record_in o.run_store

  unfoldable pub load_attempt_count_in : Option (RunStore W) → List ℕ → Io (Fleet W C) ℤ
  unfolding outside attempt_of
  load_attempt_count_in none goal_id = pure (pos 0)
  load_attempt_count_in (some rs) goal_id = do
    found ← outside (rs.load goal_id)
    pure (attempt_of found)

  unfoldable pub load_attempt_count : List ℕ → Io (Fleet W C) ℤ
  unfolding load_attempt_count_in
  load_attempt_count = load_attempt_count_in o.run_store

  unfoldable pub save_attempt_count_in : Option (RunStore W) → List ℕ → ℤ → Io (Fleet W C) Unit
  unfolding outside save_quietly record_or_bare
  save_attempt_count_in none goal_id attempt = pure tt
  save_attempt_count_in (some rs) goal_id attempt = do
    found ← outside (rs.load goal_id)
    save_quietly rs (some (record (record_or_bare goal_id found) { attempt = attempt }))

  unfoldable pub save_attempt_count : List ℕ → ℤ → Io (Fleet W C) Unit
  unfolding save_attempt_count_in
  save_attempt_count = save_attempt_count_in o.run_store
