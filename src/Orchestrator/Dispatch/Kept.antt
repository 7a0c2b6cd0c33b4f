-- ===== src/Orchestrator/Dispatch/Kept.antt =====
-- Which workers may be dispatched, and what the orchestrator does beside dispatching.
use agent_builder.Common.{◌≡◌, Bool, true, false, Option, none, some, List, [], ◌∷◌, ℕ}
use agent_builder.Policy.{DecideRequest, allow}
use agent_builder.Runstore.{Record, Status}
use agent_builder.Orchestrator.{GoalTask, SubGoal, Plan}
use agent_builder.Orchestrator.Plans.{authorizes_resource}
use agent_builder.Orchestrator.Containment.{targets_own_repo}
use agent_builder.Orchestrator.Core.{
  Fleet, Parts, TamperAware, Err, AuditEvent, RunStore, outside, see, report, append_event,
  append_deny,
}
use agent_builder.Orchestrator.Journal.{
  save_quietly, record_attempt_in, record_pending_approval_in, finalize_goal_status_in,
  plan_awaiting_approval_in,
}
use agent_builder.Orchestrator.Worker.{Phase, admitted, running_now, worker_request}
use agent_builder.Orchestrator.Dispatch.{Workers}

-- A worker may be dispatched: it is one of those given, its recipe is registered, it does not target the program's own
-- repository, the plan authorizes its recipe and its task, and the policy engine, asked for this
-- worker in a world with the property, allowed it.
pub record IsPermitted {W : Type 0} (o : Parts W) (Q : W → Type 0) (plan : Plan)
    (Which : SubGoal → Type 0) (sub : SubGoal) : Type 0 where
  pub given : Which sub
  pub registered : o.recipe_exists sub.recipe_name ≡ true
  pub foreign : targets_own_repo o.to_lower o.parse_url sub ≡ false
  pub recipe_planned : authorizes_resource plan sub.recipe_name ≡ true
  pub task_planned : authorizes_resource plan sub.task.id ≡ true
  pub asked : W
  pub asked_in : Q asked
  pub allowed : (o.decide (worker_request o sub) asked).0 ≡ allow

-- Reports, decisions, the audit and the run store keep a property of the world.
pub record IsQuiet {W : Type 0} (o : Parts W) (Q : W → Type 0) : Type 0 where
  pub reports : (text : List ℕ) (w : W) → Q w → Q (o.report text w).1
  pub decides : (request : DecideRequest) (w : W) → Q w → Q (o.decide request w).1
  pub audits :
      (sink : AuditEvent → W → Err × W)
      → o.audit_sink ≡ some sink
      → (ev : AuditEvent) (w : W) → Q w
      → Q (sink ev w).1
  pub loads :
      (rs : RunStore W) → o.run_store ≡ some rs → (id : List ℕ) (w : W) → Q w → Q (rs.load id w).1
  pub saves :
      (rs : RunStore W) → o.run_store ≡ some rs → (r : Record) (w : W) → Q w → Q (rs.save r w).1

-- So does every other part but the dispatch: planning, and the plan store.
pub record IsStill {W : Type 0} (o : Parts W) (Q : W → Type 0) : Type 0 where
  pub quiet : IsQuiet o Q
  pub plans : (goal : GoalTask) (w : W) → Q w → Q (o.planner goal w).1
  pub scopes :
      (scoper : Plan → W → Err × W)
      → o.scoper ≡ some scoper
      → (plan : Plan) (w : W) → Q w
      → Q (scoper plan w).1
  pub puts : (plan : Plan) (w : W) → Q w → Q (o.store.put plan w).1
  pub gets : (id : List ℕ) (w : W) → Q w → Q (o.store.get id w).1
  pub deletes : (id : List ℕ) (w : W) → Q w → Q (o.store.delete id w).1
  pub try_puts :
      (ta : TamperAware W)
      → o.store.tamper_aware ≡ some ta
      → (plan : Plan) (w : W) → Q w
      → Q (ta.try_put plan w).1
  pub try_deletes :
      (ta : TamperAware W)
      → o.store.tamper_aware ≡ some ta
      → (id : List ℕ) (w : W) → Q w
      → Q (ta.try_delete id w).1

-- A worker that is dispatched keeps it where it is permitted.
pub record IsKept {W : Type 0} (o : Parts W) (Q : W → Type 0) (plan : Plan)
    (Which : SubGoal → Type 0) : Type 0 where
  pub quiet : IsQuiet o Q
  pub dispatches :
      (sub : SubGoal) → IsPermitted o Q plan Which sub → (w : W) → Q w → Q (o.dispatch sub w).1

-- A worker that was let through is permitted.
unfoldable pub IsCleared :
    {W : Type 0} (o : Parts W) (Q : W → Type 0)
    → Plan
    → (SubGoal → Type 0)
    → SubGoal
    → Phase
    → Type 0
IsCleared o Q plan Which sub admitted = IsPermitted o Q plan Which sub
IsCleared o Q plan Which sub running_now = IsPermitted o Q plan Which sub
IsCleared o Q plan Which sub _ = Which sub

unfoldable pub AreCleared :
    {W : Type 0} (o : Parts W) (Q : W → Type 0) → Plan → (SubGoal → Type 0) → Workers → Type 0
AreCleared o Q plan Which [] = Unit
AreCleared o Q plan Which ((sub, phase) ∷ ws) =
    IsCleared o Q plan Which sub phase × AreCleared o Q plan Which ws

module _ {W C : Type 0} (o : Parts W) (Q : W → Type 0) (quiet : IsQuiet o Q) where
  abbrev pub Keeps : {A : Type 0} → (Fleet W C → A × Fleet W C) → Type 0
  Keeps m = (f : Fleet W C) → Q f.world → Q (m f).1.world

  pub report-Keeps : (text : List ℕ) → Keeps (report o text)
  unfolding report outside
  report-Keeps text f q = quiet.reports text f.world q

  pub save-Keeps :
      (rs : RunStore W) → o.run_store ≡ some rs → (r : Option Record) → Keeps (save_quietly rs r)
  unfolding save_quietly outside
  save-Keeps rs e none f q = q
  save-Keeps rs e (some r) f q = quiet.saves rs e r f.world q

  pub attempt-Keeps :
      (rs : Option (RunStore W)) (goal_id task_id : List ℕ) (s : Status) (detail : List ℕ)
      → o.run_store ≡ rs
      → Keeps (record_attempt_in o rs goal_id task_id s detail)
  unfolding record_attempt_in outside see
  attempt-Keeps none goal_id task_id s detail e f q = q
  attempt-Keeps (some rs) goal_id task_id s detail e f q =
      save-Keeps rs e _ _ (quiet.loads rs e goal_id f.world q)

  pub approval-Keeps :
      (rs : Option (RunStore W)) (goal_id task_id reason : List ℕ)
      → o.run_store ≡ rs
      → Keeps (record_pending_approval_in o rs goal_id task_id reason)
  unfolding record_pending_approval_in outside see
  approval-Keeps none goal_id task_id reason e f q = q
  approval-Keeps (some rs) goal_id task_id reason e f q =
      save-Keeps rs e _ _ (quiet.loads rs e goal_id f.world q)

  pub finalize-Keeps :
      (rs : Option (RunStore W)) (plan : Plan)
      → o.run_store ≡ rs
      → Keeps (finalize_goal_status_in o rs plan)
  unfolding finalize_goal_status_in outside
  finalize-Keeps none plan e f q = q
  finalize-Keeps (some rs) plan e f q =
      save-Keeps rs e _ _ (quiet.loads rs e plan.goal_id f.world q)

  pub awaiting-Keeps :
      (rs : Option (RunStore W)) (goal_id : List ℕ)
      → o.run_store ≡ rs
      → Keeps (plan_awaiting_approval_in o rs goal_id)
  unfolding plan_awaiting_approval_in outside
  awaiting-Keeps none goal_id e f q = q
  awaiting-Keeps (some rs) goal_id e f q = quiet.loads rs e goal_id f.world q

  pub event-Keeps :
      (sink : Option (AuditEvent → W → Err × W)) (ev : AuditEvent)
      → o.audit_sink ≡ sink
      → Keeps (append_event o sink ev)
  unfolding append_event outside
  event-Keeps none ev e f q = q
  event-Keeps (some sink) ev e f q = quiet.audits sink e ev f.world q

  pub deny-Keeps :
      (sink : Option (AuditEvent → W → Err × W)) (ev : AuditEvent) (is_deny : Bool)
      → o.audit_sink ≡ sink
      → Keeps (append_deny o sink ev is_deny)
  unfolding append_deny outside
  deny-Keeps none ev is_deny e f q = q
  deny-Keeps (some sink) ev is_deny e f q = quiet.audits sink e ev f.world q
