-- ===== src/Orchestrator/Sweep.antt =====
-- internal/orchestrator/runstore.go: `SweepApprovalTimeouts`.
mod Once
use agent_builder.Common.{
  Bool, true, false, Option, none, some, List, [], ◌∷◌, ◌++◌, ℕ, ◌&&◌, ◌||◌, not,
}
use agent_builder.Common.Int.{ℤ, ◌-ℤ◌, lt_int}
use agent_builder.Common.Text.{codes}
use agent_builder.Loop.{Io, ◌>>=◌, pure}
use agent_builder.Runstore.{Record, PendingApproval}
use agent_builder.Orchestrator.Core.{Fleet, Parts, RunStore, outside, report}
use agent_builder.Orchestrator.Journal.{save_quietly}

-- An approval waits longer than `timeout`, and was not escalated before.
unfoldable pub is_overdue : ℤ → ℤ → PendingApproval → Bool
unfolding lt_int ◌-ℤ◌
is_overdue now timeout p = not p.escalated && lt_int timeout (now -ℤ p.requested_at)

-- `show` is the text of a duration, rounded to a second.
unfoldable pub timeout_text :
    (List ℕ → List ℕ) → (ℤ → List ℕ) → ℤ → List ℕ → PendingApproval → List ℕ
unfolding ◌-ℤ◌
timeout_text quote show now goal_id p =
    codes "Approval timeout: goal "
    ++ (quote goal_id
        ++ (codes " task "
            ++ (quote p.task_id
                ++ (codes " has awaited approval for "
                    ++ (show (now -ℤ p.requested_at) ++ codes ", escalating to human")))))

module _ {W C : Type 0} (o : Parts W) where
  -- By whether the approval is overdue: reports it, and marks it.
  unfoldable pub sweep_one :
      (ℤ → List ℕ) → ℤ → List ℕ → PendingApproval → Bool → Io (Fleet W C) PendingApproval
  unfolding report timeout_text
  sweep_one show now goal_id p false = pure p
  sweep_one show now goal_id p true = do
    sent ← report o (timeout_text o.quote show now goal_id p)
    pure (record p { escalated = true })

  -- The approvals of a record, and whether one of them changed.
  unfoldable pub sweep_pending :
      (ℤ → List ℕ)
      → ℤ
      → ℤ
      → List ℕ
      → List PendingApproval
      → Io (Fleet W C) (Bool × List PendingApproval)
  unfolding is_overdue sweep_one
  sweep_pending show now timeout goal_id [] = pure (false, [])
  sweep_pending show now timeout goal_id (p ∷ ps) = do
    swept ← sweep_one show now goal_id p (is_overdue now timeout p)
    rest ← sweep_pending show now timeout goal_id ps
    pure (is_overdue now timeout p || rest.0, swept ∷ rest.1)

  unfoldable pub save_swept :
      RunStore W → Record → Bool × List PendingApproval → Io (Fleet W C) Unit
  unfolding save_quietly
  save_swept rs r (false, ps) = pure tt
  save_swept rs r (true, ps) = save_quietly rs (some (record r { pending_approvals = ps }))

  unfoldable pub sweep_records :
      (ℤ → List ℕ) → ℤ → ℤ → RunStore W → List Record → Io (Fleet W C) Unit
  unfolding sweep_pending save_swept
  sweep_records show now timeout rs [] = pure tt
  sweep_records show now timeout rs (r ∷ records) = do
    swept ← sweep_pending show now timeout r.goal_id r.pending_approvals
    saved ← save_swept rs r swept
    sweep_records show now timeout rs records

  unfoldable pub sweep_listed :
      (ℤ → List ℕ) → ℤ → ℤ → RunStore W → Option (List Record) → Io (Fleet W C) Unit
  unfolding sweep_records
  sweep_listed show now timeout rs none = pure tt
  sweep_listed show now timeout rs (some records) = sweep_records show now timeout rs records

  unfoldable pub sweep_approval_timeouts_in :
      (ℤ → List ℕ) → ℤ → ℤ → Option (RunStore W) → Io (Fleet W C) Unit
  unfolding outside sweep_listed
  sweep_approval_timeouts_in show now timeout none = pure tt
  sweep_approval_timeouts_in show now timeout (some rs) = do
    found ← outside rs.list_in_flight
    sweep_listed show now timeout rs found

  unfoldable pub sweep_approval_timeouts : (ℤ → List ℕ) → ℤ → ℤ → Io (Fleet W C) Unit
  unfolding sweep_approval_timeouts_in
  sweep_approval_timeouts show now timeout = sweep_approval_timeouts_in show now timeout o.run_store
