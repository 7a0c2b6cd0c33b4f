-- ===== src/Orchestrator/Flow.antt =====
-- internal/orchestrator/orchestrator.go: from a goal to its dispatch (`ConfirmAndPlan`, `Handle`), the
-- pause for an approval, and what comes of the approval (`Resume`, `ResumeWithFold`) or of a
-- cancellation. A schedule is the order in which the workers run; `none` is a call still waiting for
-- them.
use agent_builder.Common.{
  Bool, true, false, Option, none, some, List, [], ◌∷◌, ◌++◌, ℕ, not, if◌then◌else◌, length,
}
use agent_builder.Common.Int.{pos}
use agent_builder.Common.Text.{codes}
use agent_builder.Loop.{Io, ◌>>=◌, pure}
use agent_builder.Telegram.Authz.Ids.{format_int}
use agent_builder.Policy.{Decision, allow, deny, require_approval, decision_text, DecideRequest}
use agent_builder.Orchestrator.{GoalTask, SubGoal, Plan}
use agent_builder.Orchestrator.Status.{
  planning, failed, awaiting_approval, pending_info, drain_info,
}
use agent_builder.Orchestrator.Core.{
  Fleet, Parts, Err, TamperAware, goal_intake, plan_decided, event, outside, see, report, move_goal,
  emit_fleet_event, emit_tamper_event,
}
use agent_builder.Orchestrator.Journal.{persist_plan_record}
use agent_builder.Orchestrator.Dispatch.{PlanResult, dispatch_plan, trim_newlines}
pub mod Quiet

-- What a call returns: the result and the error.
abbrev pub Answer : Type 0
Answer = Option (PlanResult × Err)

abbrev pub Schedule : Type 0
Schedule = List (ℕ × Bool)

unfoldable pub empty_result : PlanResult
empty_result = record { goal = []; outcomes = [] }

unfoldable pub of_goal : List ℕ → PlanResult
of_goal goal = record { goal = goal; outcomes = [] }

unfoldable pub fold_lines : List (List ℕ) → List ℕ
fold_lines [] = []
fold_lines (line ∷ lines) = codes "\n- " ++ (line ++ fold_lines lines)

unfoldable pub fold_goal_text : List ℕ → List (List ℕ) → List ℕ
unfolding fold_lines
fold_goal_text original [] = original
fold_goal_text original (line ∷ lines) =
    original ++ (codes "\n\nAdditional information:" ++ fold_lines (line ∷ lines))

unfoldable pub render_sub_goals : List SubGoal → List ℕ
render_sub_goals [] = []
render_sub_goals (sub ∷ subs) =
    codes "  - "
    ++ (sub.recipe_name ++ (codes ": " ++ (sub.task.spec ++ (b'\n' ∷ render_sub_goals subs))))

unfoldable pub render_info : List (List ℕ) → List ℕ
render_info [] = []
render_info (line ∷ lines) = codes "  * " ++ (line ++ (b'\n' ∷ render_info lines))

unfoldable pub queued_info : List (List ℕ) → List ℕ
unfolding render_info
queued_info [] = []
queued_info (line ∷ lines) =
    codes "Queued info (will be folded on approve):\n" ++ render_info (line ∷ lines)

unfoldable pub render_approval_request_with_info : Plan → List (List ℕ) → List ℕ
unfolding render_sub_goals queued_info format_int trim_newlines
render_approval_request_with_info plan info = trim_newlines (
    codes "Approve? Plan for goal: "
    ++ (plan.goal
        ++ (b'\n'
            ∷ (format_int (pos (length plan.sub_goals))
                ++ (codes " sub-goal(s):\n"
                    ++ (render_sub_goals plan.sub_goals ++ queued_info info))))))

abbrev pub or_error : PlanResult → List ℕ → PlanResult → Err → Answer
or_error bad text good none = some (good, none)
or_error bad text good (some e) = some (bad, some (text ++ e))

module _ {W : Type 0} (o : Parts W) where
  unfoldable pub plan_request : Plan → DecideRequest
  plan_request plan = record {
    action = codes "spawn-plan";
    resource_type = codes "plan";
    resource_id = plan.goal_id;
    target_repo = [];
    sink = [];
    risk = o.risk;
  }

module _ {W C : Type 0} (o : Parts W) where
  unfoldable pub put_plain : Plan → Option (TamperAware W) → Io (Fleet W C) Err
  unfolding outside
  put_plain plan none = do stored ← outside (o.store.put plan); pure none
  put_plain plan (some ta) = outside (ta.try_put plan)

  unfoldable pub read_info : List ℕ → Io (Fleet W C) (List (List ℕ))
  unfolding pending_info
  read_info goal_id f = (pending_info goal_id f.registry, f)

  unfoldable pub solicit : Plan → Io (Fleet W C) Answer
  unfolding move_goal read_info report render_approval_request_with_info of_goal empty_result
  solicit plan = do
    moved ← move_goal o plan.goal_id awaiting_approval
    info ← read_info plan.goal_id
    err ← report o (render_approval_request_with_info plan info)
    pure (
        or_error empty_result (codes "orchestrator: report approval request: ") (of_goal plan.goal)
          err)

  unfoldable pub after_put : Plan → Err → Io (Fleet W C) Answer
  unfolding move_goal empty_result solicit
  after_put plan none = solicit plan
  after_put plan (some e) = do
    moved ← move_goal o plan.goal_id failed
    pure (
        some (
          empty_result,
          some (
              codes "orchestrator: memory-guard write-gate rejected plan for goal "
              ++ (o.quote plan.goal_id ++ (codes ": " ++ e))),
        ))

  unfoldable pub pause_for_approval : Plan → Io (Fleet W C) Answer
  unfolding put_plain after_put
  pause_for_approval plan = do err ← put_plain plan o.store.tamper_aware; after_put plan err

  unfoldable pub pause_or_dispatch : Plan → Schedule → Bool → Io (Fleet W C) Answer
  unfolding pause_for_approval dispatch_plan
  pause_or_dispatch plan schedule true = pause_for_approval plan
  pause_or_dispatch plan schedule false = dispatch_plan o plan schedule

  unfoldable pub admit_plan : Plan → Schedule → Io (Fleet W C) Answer
  unfolding persist_plan_record pause_or_dispatch
  admit_plan plan schedule = do
    persisted ← persist_plan_record o plan
    pause_or_dispatch plan schedule o.require_approval

  unfoldable pub deny_plan : Plan → Io (Fleet W C) Answer
  unfolding move_goal report of_goal empty_result
  deny_plan plan = do
    moved ← move_goal o plan.goal_id failed
    err ← report o (codes "Plan denied for goal: " ++ plan.goal)
    pure (or_error empty_result (codes "orchestrator: report denial: ") (of_goal plan.goal) err)

  unfoldable pub by_decision : Plan → Schedule → Decision → Io (Fleet W C) Answer
  unfolding admit_plan pause_for_approval deny_plan
  by_decision plan schedule allow = admit_plan plan schedule
  by_decision plan schedule require_approval = pause_for_approval plan
  by_decision plan schedule deny = deny_plan plan

  unfoldable pub decide_plan : Plan → Schedule → Io (Fleet W C) Answer
  unfolding outside plan_request emit_fleet_event event decision_text by_decision
  decide_plan plan schedule = do
    d ← outside (o.decide (plan_request o plan))
    emitted ← emit_fleet_event o (record (event plan_decided plan.goal_id plan.goal_id) {
      policy_decision = decision_text d;
    })
    by_decision plan schedule d

  unfoldable pub fail_goal : List ℕ → List ℕ → Io (Fleet W C) Answer
  unfolding move_goal empty_result
  fail_goal goal_id text = do
    moved ← move_goal o goal_id failed
    pure (some (empty_result, some text))

  unfoldable pub after_scope : GoalTask → Plan → Schedule → Err → Io (Fleet W C) Answer
  unfolding decide_plan fail_goal
  after_scope goal plan schedule none = decide_plan plan schedule
  after_scope goal plan schedule (some e) = fail_goal goal.id (
      codes "orchestrator: configure policy for plan "
      ++ (o.quote plan.goal_id ++ (codes ": " ++ e)))

  unfoldable pub scoped :
      GoalTask → Plan → Schedule → Option (Plan → Io W Err) → Io (Fleet W C) Answer
  unfolding outside decide_plan after_scope
  scoped goal plan schedule none = decide_plan plan schedule
  scoped goal plan schedule (some scoper) = do
    err ← outside (scoper plan)
    after_scope goal plan schedule err

  unfoldable pub unless_empty : GoalTask → Plan → Schedule → List SubGoal → Io (Fleet W C) Answer
  unfolding scoped fail_goal
  unless_empty goal plan schedule [] =
      fail_goal goal.id (codes "orchestrator: empty plan for goal " ++ o.quote goal.id)
  unless_empty goal plan schedule (_ ∷ _) = scoped goal plan schedule o.scoper

  unfoldable pub with_plan : GoalTask → Schedule → Option Plan → Io (Fleet W C) Answer
  unfolding unless_empty fail_goal
  with_plan goal schedule none =
      fail_goal goal.id (codes "orchestrator: plan goal " ++ o.quote goal.id)
  with_plan goal schedule (some plan) = unless_empty goal plan schedule plan.sub_goals

  unfoldable pub confirm_and_plan : GoalTask → Schedule → Io (Fleet W C) Answer
  unfolding move_goal outside with_plan
  confirm_and_plan goal schedule = do
    moved ← move_goal o goal.id planning
    plan ← outside (o.planner goal)
    with_plan goal schedule plan

  unfoldable pub handle : GoalTask → Schedule → Io (Fleet W C) Answer
  unfolding emit_fleet_event event confirm_and_plan
  handle goal schedule = do
    emitted ← emit_fleet_event o (event goal_intake goal.id goal.id)
    confirm_and_plan goal schedule
