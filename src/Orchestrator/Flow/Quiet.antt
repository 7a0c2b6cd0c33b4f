-- ===== src/Orchestrator/Flow/Quiet.antt =====
-- What happens before an approval.
use agent_builder.Common.{
  ◌≡◌, refl, sym, true_not_false, Bool, true, false, Option, none, some, List, [], ◌∷◌, ℕ,
}
use agent_builder.Policy.{Decision, allow, deny, require_approval}
use agent_builder.Orchestrator.{GoalTask, SubGoal, Plan}
use agent_builder.Orchestrator.Core.{
  Fleet, Parts, Err, RunStore, TamperAware, outside, report, move_goal, emit_fleet_event,
}
use agent_builder.Orchestrator.Journal.{
  report_failed_save, persist_marshalled, persist_plan_record_in, persist_plan_record,
}
use agent_builder.Orchestrator.Flow.{
  Schedule, put_plain, read_info, solicit, after_put, pause_for_approval, pause_or_dispatch,
  admit_plan, deny_plan, by_decision, plan_request, decide_plan, fail_goal, after_scope, scoped,
  unless_empty, with_plan, confirm_and_plan, handle,
}
use agent_builder.Orchestrator.Dispatch.Kept.{IsStill, report-Keeps, event-Keeps}

module _ {W C : Type 0} (o : Parts W) (Q : W → Type 0) (still : IsStill o Q) where
  abbrev Kept : {A : Type 0} → (Fleet W C → A × Fleet W C) → Type 0
  Kept m = (f : Fleet W C) → Q f.world → Q (m f).1.world

  failed_save-Keeps : (err : Err) (goal_id : List ℕ) → Kept (report_failed_save o err goal_id)
  unfolding report_failed_save
  failed_save-Keeps none goal_id f q = q
  failed_save-Keeps (some e) goal_id f q = report-Keeps o Q still.quiet _ f q

  marshalled-Keeps :
      (text : Option (List ℕ)) (rs : RunStore W) (plan : Plan)
      → o.run_store ≡ some rs
      → Kept (persist_marshalled o text rs plan)
  unfolding persist_marshalled outside
  marshalled-Keeps none rs plan e f q = report-Keeps o Q still.quiet _ f q
  marshalled-Keeps (some text) rs plan e f q =
      failed_save-Keeps _ plan.goal_id _
        (still.quiet.saves rs e _ _ (still.quiet.loads rs e plan.goal_id f.world q))

  persist-Keeps :
      (rs : Option (RunStore W)) (plan : Plan)
      → o.run_store ≡ rs
      → Kept (persist_plan_record_in o rs plan)
  unfolding persist_plan_record_in
  persist-Keeps none plan e f q = q
  persist-Keeps (some rs) plan e f q = marshalled-Keeps (o.marshal plan) rs plan e f q

  put-Keeps :
      (plan : Plan) (ta : Option (TamperAware W))
      → o.store.tamper_aware ≡ ta
      → Kept (put_plain o plan ta)
  unfolding put_plain outside
  put-Keeps plan none e f q = still.puts plan f.world q
  put-Keeps plan (some ta) e f q = still.try_puts ta e plan f.world q

  after_put-Keeps : (plan : Plan) (err : Err) → Kept (after_put o plan err)
  unfolding after_put solicit move_goal read_info report outside
  after_put-Keeps plan none f q = still.quiet.reports _ f.world q
  after_put-Keeps plan (some e) f q = q

  pause-Keeps : (plan : Plan) → Kept (pause_for_approval o plan)
  unfolding pause_for_approval
  pause-Keeps plan f q = after_put-Keeps plan _ _ (put-Keeps plan o.store.tamper_aware refl f q)

  or_dispatch-Keeps :
      (plan : Plan) (schedule : Schedule) (b : Bool)
      → b ≡ true
      → Kept (pause_or_dispatch o plan schedule b)
  unfolding pause_or_dispatch
  or_dispatch-Keeps plan schedule true h f q = pause-Keeps plan f q
  or_dispatch-Keeps plan schedule false h f q = absurd (true_not_false (sym h))

  module _ (approval_required : o.require_approval ≡ true) where
    admit-Keeps : (plan : Plan) (schedule : Schedule) → Kept (admit_plan o plan schedule)
    unfolding admit_plan persist_plan_record
    admit-Keeps plan schedule f q =
        or_dispatch-Keeps plan schedule o.require_approval approval_required _
          (persist-Keeps o.run_store plan refl f q)

    decision-Keeps :
        (plan : Plan) (schedule : Schedule) (d : Decision) → Kept (by_decision o plan schedule d)
    unfolding by_decision deny_plan move_goal report outside
    decision-Keeps plan schedule allow f q = admit-Keeps plan schedule f q
    decision-Keeps plan schedule require_approval f q = pause-Keeps plan f q
    decision-Keeps plan schedule deny f q = still.quiet.reports _ f.world q

    decide-Keeps : (plan : Plan) (schedule : Schedule) → Kept (decide_plan o plan schedule)
    unfolding decide_plan outside emit_fleet_event
    decide-Keeps plan schedule f q =
        let (d, g) = outside (o.decide (plan_request o plan)) f in
        decision-Keeps plan schedule d _ (
          event-Keeps o Q still.quiet o.audit_sink _ refl g
            (still.quiet.decides (plan_request o plan) f.world q))

    scope-Keeps :
        (goal : GoalTask) (plan : Plan) (schedule : Schedule) (err : Err)
        → Kept (after_scope o goal plan schedule err)
    unfolding after_scope fail_goal move_goal
    scope-Keeps goal plan schedule none f q = decide-Keeps plan schedule f q
    scope-Keeps goal plan schedule (some e) f q = q

    scoped-Keeps :
        (goal : GoalTask) (plan : Plan) (schedule : Schedule) (scoper : Option (Plan → W → Err × W))
        → o.scoper ≡ scoper
        → Kept (scoped o goal plan schedule scoper)
    unfolding scoped outside
    scoped-Keeps goal plan schedule none e f q = decide-Keeps plan schedule f q
    scoped-Keeps goal plan schedule (some scoper) e f q =
        scope-Keeps goal plan schedule _ _ (still.scopes scoper e plan f.world q)

    plan-Keeps :
        (goal : GoalTask) (schedule : Schedule) (plan : Option Plan)
        → Kept (with_plan o goal schedule plan)
    unfolding with_plan unless_empty fail_goal move_goal
    plan-Keeps goal schedule none f q = q
    plan-Keeps goal schedule (some plan) f q = go plan.sub_goals
      where
        go : (subs : List SubGoal) → Q (unless_empty o goal plan schedule subs f).1.world
        go [] = q
        go (sub ∷ subs) = scoped-Keeps goal plan schedule o.scoper refl f q

    -- Where approvals are required, the handling of a goal keeps every property of the world that all
    -- the parts of the orchestrator but the dispatch keep, whatever the policy engine decides: nothing
    -- is dispatched.
    pub handle_dispatches_nothing :
        (goal : GoalTask) (schedule : Schedule) (f : Fleet W C)
        → Q f.world
        → Q (handle o goal schedule f).1.world
    unfolding handle emit_fleet_event confirm_and_plan move_goal outside unless_empty
    handle_dispatches_nothing goal schedule f q =
        plan-Keeps goal schedule _ _
          (still.plans goal _ (event-Keeps o Q still.quiet o.audit_sink _ refl f q))
