-- ===== src/Orchestrator/Dispatch.antt =====
-- internal/orchestrator/orchestrator.go: `dispatchSubGoals`, `dispatchPlan` and `RenderPlanResult`. The
-- order in which the goroutines run is a list: which worker takes its next step, and how a select that
-- it meets chooses. The reevaluation behind the join is left out, as without a status writer.
use agent_builder.Common.{
  Bool, true, false, Option, none, some, List, [], ◌∷◌, ◌++◌, ℕ, zero, suc, not, if◌then◌else◌,
  length, nat_eq, ◌==◌,
}
use agent_builder.Common.Int.{pos}
use agent_builder.Common.Text.{codes}
use agent_builder.Loop.{Io, ◌>>=◌, pure}
use agent_builder.Telegram.Authz.Ids.{format_int}
use agent_builder.Orchestrator.{SubGoal, Plan}
use agent_builder.Orchestrator.Status.{dispatching, done, failed}
use agent_builder.Orchestrator.Core.{
  Fleet, Parts, Err, completion, event, see, report, move_goal, emit_fleet_event, when,
}
use agent_builder.Orchestrator.Journal.{finalize_goal_status}
use agent_builder.Orchestrator.Worker.{
  SubGoalOutcome, Phase, waiting, admitted, running_now, finished, unaudited, step, is_some,
}
pub mod Kept
pub mod Permitted
mod Tests

pub record PlanResult : Type 0 where
  pub goal : List ℕ
  pub outcomes : List SubGoalOutcome

abbrev pub Workers : Type 0
Workers = List (SubGoal × Phase)

unfoldable pub begin : List SubGoal → Workers
begin [] = []
begin (sub ∷ subs) = (sub, waiting) ∷ begin subs

unfoldable pub with_outcome :
    SubGoalOutcome → Err → Option (List SubGoalOutcome × Err) → Option (List SubGoalOutcome × Err)
with_outcome outcome err none = none
with_outcome outcome none (some (outcomes, later)) = some (outcome ∷ outcomes, later)
with_outcome outcome (some e) (some (outcomes, later)) = some (outcome ∷ outcomes, some e)

-- wg.Wait: the outcomes in the order of the sub-goals and the first error of an audit, or `none` while
-- a worker has not finished.
unfoldable pub join : Workers → Option (List SubGoalOutcome × Err)
unfolding with_outcome
join [] = some ([], none)
join ((sub, finished outcome) ∷ ws) = with_outcome outcome none (join ws)
join ((sub, unaudited outcome e) ∷ ws) = with_outcome outcome (some e) (join ws)
join ((sub, _) ∷ ws) = none

-- strings.TrimRight(s, "\n")
abbrev keep_unless_newline : ℕ → List ℕ → List ℕ
keep_unless_newline c [] = if c == b'\n' then [] else c ∷ []
keep_unless_newline c (d ∷ s) = c ∷ d ∷ s

unfoldable pub trim_newlines : List ℕ → List ℕ
unfolding nat_eq
trim_newlines [] = []
trim_newlines (c ∷ s) = keep_unless_newline c (trim_newlines s)

unfoldable pub render_outcomes : List SubGoalOutcome → List ℕ
render_outcomes [] = []
render_outcomes (oc ∷ ocs) =
    codes "  ["
    ++ ((if oc.success then codes "OK" else codes "FAIL")
        ++ (codes "] "
            ++ (oc.recipe ++ (codes " -> " ++ (oc.detail ++ (b'\n' ∷ render_outcomes ocs))))))

unfoldable pub render_plan_result : PlanResult → List ℕ
unfolding format_int render_outcomes trim_newlines
render_plan_result result = trim_newlines (
    codes "Goal: "
    ++ (result.goal
        ++ (b'\n'
            ∷ (format_int (pos (length result.outcomes))
                ++ (codes " sub-goal(s):\n" ++ render_outcomes result.outcomes)))))

abbrev wrapped : List ℕ → Err → Err
wrapped text none = none
wrapped text (some e) = some (text ++ e)

module _ {W C : Type 0} (o : Parts W) where
  -- The worker with the index takes its next step.
  unfoldable pub step_at : Plan → ℕ → Bool → Workers → Io (Fleet W C) Workers
  unfolding step
  step_at plan i first [] f = ([], f)
  step_at plan zero first ((sub, phase) ∷ ws) f =
      let (next, g) = step o plan sub first phase f in ((sub, next) ∷ ws, g)
  step_at plan (suc i) first (w ∷ ws) f = let (next, g) = step_at plan i first ws f in (w ∷ next, g)

  unfoldable pub run_schedule : Plan → List (ℕ × Bool) → Workers → Io (Fleet W C) Workers
  unfolding step_at
  run_schedule plan [] ws f = (ws, f)
  run_schedule plan ((i, first) ∷ schedule) ws f =
      let (next, g) = step_at plan i first ws f in run_schedule plan schedule next g

  unfoldable pub report_result : PlanResult → Io (Fleet W C) (Option (PlanResult × Err))
  unfolding report render_plan_result
  report_result result = do
    err ← report o (render_plan_result result)
    pure (some (result, wrapped (codes "orchestrator: report plan result: ") err))

  unfoldable pub mark_done : Plan → Err → Io (Fleet W C) Unit
  unfolding move_goal
  mark_done plan none = move_goal o plan.goal_id done
  mark_done plan (some _) = pure tt

  -- What is behind the join, without a status writer, which the reevaluation of blocked outcomes needs.
  -- `none` is a call that is still waiting.
  unfoldable pub after_join :
      Plan → Option (List SubGoalOutcome × Err) → Io (Fleet W C) (Option (PlanResult × Err))
  unfolding move_goal finalize_goal_status emit_fleet_event event see mark_done report_result
  after_join plan none = pure none
  after_join plan (some (outcomes, some e)) = do
    moved ← move_goal o plan.goal_id failed
    pure (
        some (
          record { goal = plan.goal; outcomes = outcomes },
          some (codes "orchestrator: audit spawn-decided deny: " ++ e),
        ))
  after_join plan (some (outcomes, none)) = do
    finalized ← finalize_goal_status o plan
    emitted ← emit_fleet_event o (event completion plan.goal_id plan.goal_id)
    cancelled ← see o.ctx_err
    moved ← mark_done plan cancelled
    report_result (record { goal = plan.goal; outcomes = outcomes })

  unfoldable pub dispatch_sub_goals :
      Plan → List SubGoal → List (ℕ × Bool) → Io (Fleet W C) (Option (PlanResult × Err))
  unfolding move_goal begin run_schedule join after_join
  dispatch_sub_goals plan subs schedule = do
    moved ← move_goal o plan.goal_id dispatching
    ws ← run_schedule plan schedule (begin subs)
    after_join plan (join ws)

  unfoldable pub dispatch_plan : Plan → List (ℕ × Bool) → Io (Fleet W C) (Option (PlanResult × Err))
  unfolding dispatch_sub_goals
  dispatch_plan plan schedule = dispatch_sub_goals plan plan.sub_goals schedule
