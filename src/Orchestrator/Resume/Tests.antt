-- ===== src/Orchestrator/Resume/Tests.antt =====
-- Goals and approvals at the example.
use agent_builder.Common.{◌≡◌, refl, [], ◌∷◌, true}
use agent_builder.Common.Map.{lookup-insert}
use agent_builder.Common.Text.{codes, text_eq}
use agent_builder.Orchestrator.Plans.{put, get}
use agent_builder.Orchestrator.Dispatch.Kept.{IsStill, IsKept}
use agent_builder.Orchestrator.Flow.{handle}
use agent_builder.Orchestrator.Flow.Quiet.{handle_dispatches_nothing}
use agent_builder.Orchestrator.Resume.{
  Approval, has_roles, resume, resume_with_fold, dispatch_replanned, has_pending_plan,
}
use agent_builder.Orchestrator.Resume.Guarded.{refusal_dispatches_nothing}
use agent_builder.Orchestrator.Resume.Replayed.{IsHeld, replanned_stays_pending}
use agent_builder.Orchestrator.Example.{World, parts, plan, goal, fleet}

-- Nothing was dispatched.
abbrev IsIdle : World → Type 0
IsIdle w = w.log ≡ []

idle_lem : IsStill parts IsIdle
idle_lem = record {
  quiet = record {
    reports = λ text w q. q;
    decides = λ request w q. q;
    audits = λ sink e. absurd cc;
    loads = λ rs e. absurd cc;
    saves = λ rs e. absurd cc;
  };
  plans = λ t w q. q;
  scopes = λ scoper e. absurd cc;
  puts = λ p w q. q;
  gets = λ id w q. q;
  deletes = λ id w q. q;
  try_puts = λ ta e. absurd cc;
  try_deletes = λ ta e. absurd cc;
}

handle_dispatches_nothing_example : (handle parts goal ((0, true) ∷ []) fleet).1.world.log ≡ []
handle_dispatches_nothing_example =
    handle_dispatches_nothing parts IsIdle idle_lem refl goal ((0, true) ∷ []) fleet refl

abbrev stranger : Approval
stranger = record {
  from_role = codes "worker";
  to_role = codes "orchestrator";
  goal_id = codes "g";
  approved = true;
}

refusal_dispatches_nothing_example :
    ((resume parts stranger ((0, true) ∷ []) fleet).1.world.log ≡ [])
    × ((resume_with_fold parts stranger goal ((0, true) ∷ []) fleet).1.world.log ≡ [])
unfolding has_roles text_eq
refusal_dispatches_nothing_example =
    refusal_dispatches_nothing parts IsIdle idle_lem stranger goal ((0, true) ∷ []) fleet refl refl

held_lem : IsKept parts (IsHeld parts plan) plan (λ sub. Unit)
unfolding IsHeld
held_lem = record {
  quiet = record {
    reports = λ text w q. q;
    decides = λ request w q. q;
    audits = λ sink e. absurd cc;
    loads = λ rs e. absurd cc;
    saves = λ rs e. absurd cc;
  };
  dispatches = λ sub p w q. q;
}

stores_lem : (w : World) → IsHeld parts plan (parts.store.put plan w).1
unfolding IsHeld put get
stores_lem w = lookup-insert plan.goal_id plan.goal_id plan w.plans

replanned_stays_pending_example :
    (has_pending_plan parts (codes "g") (dispatch_replanned parts plan ((0, true) ∷ []) fleet).1).0
    ≡ true
replanned_stays_pending_example =
    replanned_stays_pending parts plan held_lem stores_lem ((0, true) ∷ []) fleet
