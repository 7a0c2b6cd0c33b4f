-- ===== src/Orchestrator/Sweep/Once.antt =====
-- What a second sweep does.
use agent_builder.Common.{◌≡◌, refl, true, false, List, [], ◌∷◌, ℕ, Bool-cases, inl, inr}
use agent_builder.Common.Int.{ℤ}
use agent_builder.Runstore.{PendingApproval}
use agent_builder.Orchestrator.Core.{Fleet, Parts, report}
use agent_builder.Orchestrator.Sweep.{is_overdue, sweep_one, sweep_pending, timeout_text}

marked_lem :
    (now timeout : ℤ) (p : PendingApproval)
    → is_overdue now timeout (record p { escalated = true }) ≡ false
unfolding is_overdue
marked_lem now timeout p = refl

module _ {W C : Type 0} (o : Parts W) (show : ℤ → List ℕ) (now timeout : ℤ) (id : List ℕ) where
  -- After a sweep over a record's approvals, a second one at the same time finds none to escalate: it
  -- reports nothing, and leaves the approvals as they are.
  pub sweep_pending-once :
      (ps : List PendingApproval) (f g : Fleet W C)
      → sweep_pending o show now timeout id (sweep_pending o show now timeout id ps f).0.1 g
        ≡ ((false, (sweep_pending o show now timeout id ps f).0.1), g)
  unfolding sweep_pending sweep_one
  sweep_pending-once [] f g = refl
  sweep_pending-once (p ∷ ps) f g = elim (Bool-cases (is_overdue now timeout p)) [
    | inl late ↦
        rw
          (
            late,
            marked_lem now timeout p,
            sweep_pending-once ps (report o (timeout_text o.quote show now id p) f).1 g,
          )
          refl
    | inr early ↦ rw (early, early, sweep_pending-once ps f g) refl
  ]
