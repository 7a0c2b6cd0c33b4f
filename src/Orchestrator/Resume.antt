-- ===== src/Orchestrator/Resume.antt =====
-- internal/orchestrator/orchestrator.go: `Resume`, `ResumeWithFold`, `SolicitApproval`,
-- `HasPendingPlan` and `ConsumePlanOnCancel`.
use agent_builder.Common.{
  Bool, true, false, Option, none, some, List, [], ◌∷◌, ◌++◌, ℕ, not, ◌&&◌, ◌==◌, if◌then◌else◌,
}
use agent_builder.Common.Text.{codes, text_eq}
use agent_builder.Loop.{Io, ◌>>=◌, pure}
use agent_builder.Orchestrator.{GoalTask, SubGoal, Plan}
use agent_builder.Orchestrator.Status.{planning, drain_info}
use agent_builder.Orchestrator.Core.{
  Fleet, Parts, Err, TamperAware, outside, report, move_goal, emit_tamper_event,
}
use agent_builder.Orchestrator.Dispatch.{PlanResult, dispatch_plan}
use agent_builder.Orchestrator.Flow.{
  Answer, Schedule, empty_result, of_goal, fold_goal_text, render_approval_request_with_info,
  or_error, read_info, fail_goal,
}
pub mod Guarded
pub mod Replayed
mod Tests

-- An approval, with the roles of its envelope.
pub record Approval : Type 0 where
  pub from_role : List ℕ
  pub to_role : List ℕ
  pub goal_id : List ℕ
  pub approved : Bool

unfoldable pub has_roles : Approval → Bool
unfolding text_eq
has_roles a = (a.from_role == codes "operator") && (a.to_role == codes "orchestrator")

unfoldable pub is_stored : Option Plan → Bool
is_stored none = false
is_stored (some _) = true

module _ {W : Type 0} (o : Parts W) where
  unfoldable pub bad_roles : Approval → Answer
  unfolding empty_result
  bad_roles a = some (
    empty_result,
    some (
        codes "orchestrator: approval role mismatch: from="
        ++ (o.quote a.from_role
            ++ (codes " to="
                ++ (o.quote a.to_role ++ codes " (want from=\"operator\" to=\"orchestrator\")")))),
  )

  unfoldable pub no_pending : List ℕ → List ℕ
  no_pending goal_id = codes "orchestrator: no pending plan for goal " ++ o.quote goal_id

  unfoldable pub tampered : List ℕ → List ℕ → Answer
  unfolding empty_result
  tampered goal_id e = some (
    empty_result,
    some (
        codes "orchestrator: tamper detected on delete-verify for goal "
        ++ (o.quote goal_id ++ (codes ": " ++ e))),
  )

module _ {W C : Type 0} (o : Parts W) where
  -- Delete, or TryDelete; the tamper event goes with an error of the latter.
  unfoldable pub after_try_delete : List ℕ → Err → Io (Fleet W C) Err
  unfolding emit_tamper_event
  after_try_delete goal_id none = pure none
  after_try_delete goal_id (some e) = do emitted ← emit_tamper_event o goal_id; pure (some e)

  unfoldable pub delete_stored : List ℕ → Option (TamperAware W) → Io (Fleet W C) Err
  unfolding outside after_try_delete
  delete_stored goal_id none = do deleted ← outside (o.store.delete goal_id); pure none
  delete_stored goal_id (some ta) = do
    err ← outside (ta.try_delete goal_id)
    after_try_delete goal_id err

  unfoldable pub drain : List ℕ → Io (Fleet W C) (List (List ℕ))
  unfolding drain_info
  drain goal_id f =
      let (info, registry) = drain_info goal_id (o.now f.world) f.registry in
      (info, record f { registry = registry })

  unfoldable pub reject : Plan → Io (Fleet W C) Answer
  unfolding report of_goal empty_result
  reject plan = do
    err ← report o (codes "Plan rejected for goal: " ++ plan.goal)
    pure (or_error empty_result (codes "orchestrator: report rejection: ") (of_goal plan.goal) err)

  unfoldable pub resume_deleted : Approval → Schedule → Plan → Err → Io (Fleet W C) Answer
  unfolding tampered reject dispatch_plan
  resume_deleted a schedule plan (some e) = pure (tampered o a.goal_id e)
  resume_deleted a schedule plan none =
      if a.approved then dispatch_plan o plan schedule else reject plan

  unfoldable pub resume_stored : Approval → Schedule → Option Plan → Io (Fleet W C) Answer
  unfolding no_pending delete_stored resume_deleted empty_result
  resume_stored a schedule none = pure (some (empty_result, some (no_pending o a.goal_id)))
  resume_stored a schedule (some plan) = do
    err ← delete_stored a.goal_id o.store.tamper_aware
    resume_deleted a schedule plan err

  unfoldable pub resume : Approval → Schedule → Io (Fleet W C) Answer
  unfolding has_roles bad_roles outside resume_stored
  resume a schedule =
      if not (has_roles a)
      then pure (bad_roles o a)
      else do stored ← outside (o.store.get a.goal_id); resume_stored a schedule stored

  -- Behind the second planning; the plan is put back before its dispatch.
  unfoldable pub dispatch_replanned : Plan → Schedule → Io (Fleet W C) Answer
  unfolding outside dispatch_plan
  dispatch_replanned plan schedule = do
    stored ← outside (o.store.put plan)
    dispatch_plan o plan schedule

  unfoldable pub unless_empty_again :
      Approval → Plan → Schedule → List SubGoal → Io (Fleet W C) Answer
  unfolding fail_goal dispatch_replanned
  unless_empty_again a plan schedule [] =
      fail_goal o a.goal_id (codes "orchestrator: empty re-plan for goal " ++ o.quote a.goal_id)
  unless_empty_again a plan schedule (_ ∷ _) = dispatch_replanned plan schedule

  unfoldable pub replanned : Approval → Schedule → Option Plan → Io (Fleet W C) Answer
  unfolding fail_goal unless_empty_again
  replanned a schedule none =
      fail_goal o a.goal_id (codes "orchestrator: re-plan goal " ++ o.quote a.goal_id)
  replanned a schedule (some plan) = unless_empty_again a plan schedule plan.sub_goals

  unfoldable pub fold_approved :
      Approval → GoalTask → Schedule → List (List ℕ) → Io (Fleet W C) Answer
  unfolding move_goal outside fold_goal_text replanned
  fold_approved a goal schedule info = do
    moved ← move_goal o a.goal_id planning
    plan ← outside (o.planner (record goal { spec = fold_goal_text goal.spec info }))
    replanned a schedule plan

  unfoldable pub fold_deleted : Approval → GoalTask → Schedule → Plan → Err → Io (Fleet W C) Answer
  unfolding tampered reject drain fold_approved
  fold_deleted a goal schedule plan (some e) = pure (tampered o a.goal_id e)
  fold_deleted a goal schedule plan none = do
    info ← drain a.goal_id
    if a.approved then fold_approved a goal schedule info else reject plan

  unfoldable pub fold_stored : Approval → GoalTask → Schedule → Option Plan → Io (Fleet W C) Answer
  unfolding no_pending delete_stored fold_deleted empty_result
  fold_stored a goal schedule none = pure (some (empty_result, some (no_pending o a.goal_id)))
  fold_stored a goal schedule (some plan) = do
    err ← delete_stored a.goal_id o.store.tamper_aware
    fold_deleted a goal schedule plan err

  unfoldable pub resume_with_fold : Approval → GoalTask → Schedule → Io (Fleet W C) Answer
  unfolding has_roles bad_roles outside fold_stored
  resume_with_fold a goal schedule =
      if not (has_roles a)
      then pure (bad_roles o a)
      else do stored ← outside (o.store.get a.goal_id); fold_stored a goal schedule stored

  unfoldable pub solicit_stored : List ℕ → Option Plan → Io (Fleet W C) Err
  unfolding no_pending read_info report render_approval_request_with_info
  solicit_stored goal_id none = pure (some (no_pending o goal_id))
  solicit_stored goal_id (some plan) = do
    info ← read_info o goal_id
    report o (render_approval_request_with_info plan info)

  unfoldable pub solicit_approval : List ℕ → Io (Fleet W C) Err
  unfolding outside solicit_stored
  solicit_approval goal_id = do
    stored ← outside (o.store.get goal_id)
    solicit_stored goal_id stored

  unfoldable pub has_pending_plan : List ℕ → Io (Fleet W C) Bool
  unfolding outside is_stored
  has_pending_plan goal_id = do stored ← outside (o.store.get goal_id); pure (is_stored stored)

  unfoldable pub consume_stored : List ℕ → Option Plan → Io (Fleet W C) (Bool × Err)
  unfolding delete_stored
  consume_stored goal_id none = pure (false, none)
  consume_stored goal_id (some plan) = do
    err ← delete_stored goal_id o.store.tamper_aware
    pure (true, err)

  unfoldable pub consume_plan_on_cancel : List ℕ → Io (Fleet W C) (Bool × Err)
  unfolding outside consume_stored
  consume_plan_on_cancel goal_id = do
    stored ← outside (o.store.get goal_id)
    consume_stored goal_id stored
