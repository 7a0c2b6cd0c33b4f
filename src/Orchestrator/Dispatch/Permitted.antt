-- ===== src/Orchestrator/Dispatch/Permitted.antt =====
-- Which workers are dispatched, in whatever order they run.
use agent_builder.Common.{
  ◌≡◌, refl, Bool, true, false, Option, none, some, List, [], ◌∷◌, ℕ, zero, suc, Bool-cases, inl,
  inr, All,
}
use agent_builder.Policy.{Decision, allow, deny, require_approval}
use agent_builder.Orchestrator.{SubGoal, Plan}
use agent_builder.Orchestrator.Plans.{authorizes_resource}
use agent_builder.Orchestrator.Containment.{targets_own_repo}
use agent_builder.Orchestrator.Semaphore.{Acquired, acquired, context_done, parked}
use agent_builder.Orchestrator.Core.{
  Fleet, Parts, Err, completion, event, outside, see, move_goal, show_sub_goal, emit_fleet_event,
  emit_fleet_event_for_deny,
}
use agent_builder.Orchestrator.Journal.{
  record_attempt, record_pending_approval, finalize_goal_status, plan_awaiting_approval,
}
use agent_builder.Orchestrator.Worker.{
  SubGoalOutcome, Phase, waiting, admitted, running_now, finished, unaudited, worker_request,
  decide_spawn_worker, report_denied, admit, after_audit, audit_decision, gate, finish_failed,
  finish_done, finish_awaiting, give_back, unless_paused, start, after_acquire, acquire_permit,
  record_approvals, conclude, hooked, run, step, is_allow,
}
use agent_builder.Orchestrator.Dispatch.{
  Workers, begin, step_at, run_schedule, report_result, mark_done, after_join, dispatch_sub_goals,
}
use agent_builder.Orchestrator.Dispatch.Kept.{
  IsPermitted, IsKept, IsCleared, AreCleared, Keeps, report-Keeps, attempt-Keeps, approval-Keeps,
  finalize-Keeps, awaiting-Keeps, event-Keeps, deny-Keeps,
}

begin-AreCleared :
    {W : Type 0} (o : Parts W) (Q : W → Type 0) (plan : Plan) (Which : SubGoal → Type 0)
    (subs : List SubGoal)
    → All Which subs
    → AreCleared o Q plan Which (begin subs)
unfolding begin AreCleared IsCleared
begin-AreCleared o Q plan Which [] all = tt
begin-AreCleared o Q plan Which (sub ∷ subs) (w, all) =
    (w, begin-AreCleared o Q plan Which subs all)

module _ {W C : Type 0} (o : Parts W) (Q : W → Type 0) (plan : Plan) (Which : SubGoal → Type 0)
    (kept : IsKept o Q plan Which) where
  abbrev Clears : SubGoal → (Fleet W C → Phase × Fleet W C) → Type 0
  Clears sub m =
      (f : Fleet W C) → Q f.world → Q (m f).1.world × IsCleared o Q plan Which sub (m f).0

  -- A decision to allow is taken only for a worker that is permitted, if its recipe is registered.
  decision-Keeps :
      (sub : SubGoal) (f : Fleet W C)
      → Which sub
      → Q f.world
      → o.recipe_exists sub.recipe_name ≡ true
      → Q (decide_spawn_worker o plan sub f).1.world
        × ((decide_spawn_worker o plan sub f).0.0 ≡ allow → IsPermitted o Q plan Which sub)
  unfolding decide_spawn_worker outside
  decision-Keeps sub f w q known = elim (Bool-cases (targets_own_repo o.to_lower o.parse_url sub)) [
    | inl own ↦ rw own (q, λ e. absurd cc)
    | inr foreign ↦ elim (Bool-cases (authorizes_resource plan sub.recipe_name)) [
      | inr unplanned ↦ rw (foreign, unplanned) (q, λ e. absurd cc)
      | inl recipe ↦ elim (Bool-cases (authorizes_resource plan sub.task.id)) [
        | inr unplanned ↦ rw (foreign, recipe, unplanned) (q, λ e. absurd cc)
        | inl task ↦
            rw (foreign, recipe, task)
              (
                kept.quiet.decides (worker_request o sub) f.world q,
                λ e. record {
                  given = w;
                  registered = known;
                  foreign = foreign;
                  recipe_planned = recipe;
                  task_planned = task;
                  asked = f.world;
                  asked_in = q;
                  allowed = e;
                },
              )
      ]
    ]
  ]

  admit-Clears : (sub : SubGoal) → IsPermitted o Q plan Which sub → Clears sub (admit o plan sub)
  unfolding admit show_sub_goal record_attempt IsCleared
  admit-Clears sub p f q =
      (attempt-Keeps o Q kept.quiet o.run_store plan.goal_id sub.task.id _ [] refl _ q, p)

  denied-Clears :
      (sub : SubGoal) (reason : List ℕ) → Which sub → Clears sub (report_denied o sub reason)
  unfolding report_denied IsCleared
  denied-Clears sub reason w f q = (report-Keeps o Q kept.quiet _ f q, w)

  audited-Clears :
      (sub : SubGoal) (d : Decision) (reason : List ℕ) (err : Err)
      → Which sub
      → (d ≡ allow → IsPermitted o Q plan Which sub)
      → Clears sub (after_audit o plan sub d reason err)
  unfolding after_audit is_allow IsCleared
  audited-Clears sub d reason (some e) w p f q = (q, w)
  audited-Clears sub allow reason none w p f q = admit-Clears sub (p refl) f q
  audited-Clears sub deny reason none w p f q = denied-Clears sub reason w f q
  audited-Clears sub require_approval reason none w p f q = denied-Clears sub reason w f q

  gate-Clears : (sub : SubGoal) → Which sub → Clears sub (gate o plan sub)
  unfolding gate audit_decision emit_fleet_event_for_deny IsCleared
  gate-Clears sub w f q = elim (Bool-cases (o.recipe_exists sub.recipe_name)) [
    | inr unknown ↦ rw unknown (q, w)
    | inl known ↦
        let (q', p) = decision-Keeps sub f w q known in
        rw known
          (audited-Clears sub _ _ _ w p _ (deny-Keeps o Q kept.quiet o.audit_sink _ _ refl _ q'))
  ]

  failed-Clears : (sub : SubGoal) (e : List ℕ) → Which sub → Clears sub (finish_failed o plan sub e)
  unfolding finish_failed show_sub_goal record_attempt IsCleared
  failed-Clears sub e w f q =
      (attempt-Keeps o Q kept.quiet o.run_store plan.goal_id sub.task.id _ e refl _ q, w)

  done-Clears : (sub : SubGoal) → Which sub → Clears sub (finish_done o plan sub)
  unfolding finish_done show_sub_goal record_attempt IsCleared
  done-Clears sub w f q =
      (attempt-Keeps o Q kept.quiet o.run_store plan.goal_id sub.task.id _ [] refl _ q, w)

  unless_paused-Clears :
      (sub : SubGoal) (paused : Bool)
      → IsPermitted o Q plan Which sub
      → Clears sub (unless_paused o sub paused)
  unfolding unless_paused give_back IsCleared
  unless_paused-Clears sub false p f q = (q, p)
  unless_paused-Clears sub true p f q = (q, p.given)

  start-Clears : (sub : SubGoal) → IsPermitted o Q plan Which sub → Clears sub (start o plan sub)
  unfolding start plan_awaiting_approval
  start-Clears sub p f q =
      unless_paused-Clears sub _ p _
        (awaiting-Keeps o Q kept.quiet o.run_store plan.goal_id refl f q)

  after_acquire-Clears :
      (sub : SubGoal) (a : Acquired)
      → IsPermitted o Q plan Which sub
      → Clears sub (after_acquire o plan sub a)
  unfolding after_acquire IsCleared
  after_acquire-Clears sub (acquired s) p f q = start-Clears sub p _ q
  after_acquire-Clears sub context_done p f q = failed-Clears sub _ p.given f q
  after_acquire-Clears sub parked p f q = (q, p)

  acquire-Clears :
      (sub : SubGoal) (first : Bool)
      → IsPermitted o Q plan Which sub
      → (f : Fleet W C) → Q f.world
      → Q (acquire_permit o plan sub first f.worker_sem f).1.world
        × IsCleared o Q plan Which sub (acquire_permit o plan sub first f.worker_sem f).0
  unfolding acquire_permit
  acquire-Clears sub first p f q = go f.worker_sem
    where
      go :
          (sem : _)
          → Q (acquire_permit o plan sub first sem f).1.world
            × IsCleared o Q plan Which sub (acquire_permit o plan sub first sem f).0
      go none = start-Clears sub p f q
      go (some s) = after_acquire-Clears sub _ p f q

  approvals-keep :
      (approvals : List (List ℕ × List ℕ))
      → Keeps {C = C} o Q kept.quiet (record_approvals o plan approvals)
  unfolding record_approvals record_pending_approval
  approvals-keep [] f q = q
  approvals-keep ((task_id, reason) ∷ approvals) f q =
      approvals-keep approvals _
        (approval-Keeps o Q kept.quiet o.run_store plan.goal_id task_id reason refl f q)

  conclude-Clears :
      (sub : SubGoal) (approvals : List (List ℕ × List ℕ)) (err : Err)
      → Which sub
      → Clears sub (conclude o plan sub approvals err)
  unfolding conclude finish_awaiting record_attempt IsCleared
  conclude-Clears sub (a ∷ approvals) err w f q =
      (attempt-Keeps o Q kept.quiet o.run_store plan.goal_id sub.task.id _ _ refl f q, w)
  conclude-Clears sub [] (some e) w f q = failed-Clears sub e w f q
  conclude-Clears sub [] none w f q = done-Clears sub w f q

  run-Clears : (sub : SubGoal) → IsPermitted o Q plan Which sub → Clears sub (run o plan sub)
  unfolding run outside give_back
  run-Clears sub p f q =
      let (result, g) = outside (o.dispatch sub) f in
      let approvals = hooked o result.approvals in
      let h = (record_approvals o plan approvals g).1 in
      conclude-Clears sub approvals result.err p.given (give_back o h).1
        (approvals-keep approvals g (kept.dispatches sub p f.world q))

  pub step-Clears :
      (sub : SubGoal) (first : Bool) (phase : Phase)
      → IsCleared o Q plan Which sub phase
      → Clears sub (step o plan sub first phase)
  unfolding step IsCleared
  step-Clears sub first waiting c f q = gate-Clears sub c f q
  step-Clears sub first admitted c f q = acquire-Clears sub first c f q
  step-Clears sub first running_now c f q = run-Clears sub c f q
  step-Clears sub first (finished outcome) c f q = (q, c)
  step-Clears sub first (unaudited outcome e) c f q = (q, c)

  step_at-Clears :
      (i : ℕ) (first : Bool) (ws : Workers) (f : Fleet W C)
      → AreCleared o Q plan Which ws
      → Q f.world
      → Q (step_at o plan i first ws f).1.world
        × AreCleared o Q plan Which (step_at o plan i first ws f).0
  unfolding step_at AreCleared
  step_at-Clears i first [] f c q = (q, tt)
  step_at-Clears zero first ((sub, phase) ∷ ws) f (c, cs) q =
      let (q', c') = step-Clears sub first phase c f q in (q', (c', cs))
  step_at-Clears (suc i) first (w ∷ ws) f (c, cs) q =
      let (q', cs') = step_at-Clears i first ws f cs q in (q', (c, cs'))

  schedule-Clears :
      (schedule : List (ℕ × Bool)) (ws : Workers) (f : Fleet W C)
      → AreCleared o Q plan Which ws
      → Q f.world
      → Q (run_schedule o plan schedule ws f).1.world
  unfolding run_schedule
  schedule-Clears [] ws f c q = q
  schedule-Clears ((i, first) ∷ schedule) ws f c q =
      let (q', c') = step_at-Clears i first ws f c q in schedule-Clears schedule _ _ c' q'

  mark_done-Keeps : (err : Err) → Keeps {C = C} o Q kept.quiet (mark_done o plan err)
  unfolding mark_done move_goal
  mark_done-Keeps none f q = q
  mark_done-Keeps (some e) f q = q

  join-Keeps :
      (joined : Option (List SubGoalOutcome × Err))
      → Keeps {C = C} o Q kept.quiet (after_join o plan joined)
  unfolding after_join move_goal finalize_goal_status emit_fleet_event see report_result
  join-Keeps none f q = q
  join-Keeps (some (outcomes, some e)) f q = q
  join-Keeps (some (outcomes, none)) f q =
      let g = (finalize_goal_status o plan f).1 in
      let ev = event completion plan.goal_id plan.goal_id in
      let h = (emit_fleet_event o ev g).1 in
      let k = (mark_done o plan (o.ctx_err h.world) h).1 in
      report-Keeps o Q kept.quiet _ k (
        mark_done-Keeps (o.ctx_err h.world) h (
          event-Keeps o Q kept.quiet o.audit_sink ev refl g
            (finalize-Keeps o Q kept.quiet o.run_store plan refl f q)))

  -- Take any property of the world that every part of the orchestrator keeps, the dispatch of a worker
  -- at least where it has what all the sub-goals given have in common, its recipe is registered, it does
  -- not target the program's own repository, the plan authorizes its recipe and its task, and the policy
  -- engine allowed this worker when it was asked. Then the dispatch of a plan keeps it, in whatever order
  -- the workers run and whatever sub-goals it is given: no other worker is ever dispatched.
  pub dispatch_permitted :
      (subs : List SubGoal) (schedule : List (ℕ × Bool)) (f : Fleet W C)
      → All Which subs
      → Q f.world
      → Q (dispatch_sub_goals o plan subs schedule f).1.world
  unfolding dispatch_sub_goals move_goal
  dispatch_permitted subs schedule f all q =
      join-Keeps _ _
        (schedule-Clears schedule (begin subs) _ (begin-AreCleared o Q plan Which subs all) q)
