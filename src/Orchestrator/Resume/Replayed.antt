-- ===== src/Orchestrator/Resume/Replayed.antt =====
-- What ResumeWithFold leaves in the plan store.
use agent_builder.Common.{◌≡◌, ap, true, some, tabulate}
use agent_builder.Orchestrator.{Plan}
use agent_builder.Orchestrator.Core.{Fleet, Parts, outside}
use agent_builder.Orchestrator.Dispatch.{dispatch_plan}
use agent_builder.Orchestrator.Dispatch.Kept.{IsKept}
use agent_builder.Orchestrator.Dispatch.Permitted.{dispatch_permitted}
use agent_builder.Orchestrator.Flow.{Schedule}
use agent_builder.Orchestrator.Resume.{dispatch_replanned, has_pending_plan, is_stored}

-- The plan store holds the plan.
unfoldable pub IsHeld : {W : Type 0} → Parts W → Plan → W → Type 0
IsHeld o plan w = (o.store.get plan.goal_id w).0 ≡ some plan

module _ {W C : Type 0} (o : Parts W) (plan : Plan) where
  -- When ResumeWithFold has put the second plan into the store and dispatched it, the plan is still
  -- pending, where Put stores it and the other parts leave the plan store alone: a second approval
  -- finds it.
  pub replanned_stays_pending :
      IsKept o (IsHeld o plan) plan (λ sub. Unit)
      → ((w : W) → IsHeld o plan (o.store.put plan w).1)
      → (schedule : Schedule) (f : Fleet W C)
      → (has_pending_plan o plan.goal_id (dispatch_replanned o plan schedule f).1).0 ≡ true
  unfolding has_pending_plan is_stored outside IsHeld dispatch_replanned dispatch_plan
  replanned_stays_pending kept stores schedule f = ap is_stored (
      dispatch_permitted o (IsHeld o plan) plan (λ sub. Unit) kept plan.sub_goals schedule
        (record f { world = (o.store.put plan f.world).1 }) (tabulate (λ sub. tt) plan.sub_goals)
        (stores f.world))
