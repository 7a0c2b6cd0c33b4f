-- ===== src/Orchestrator/Rehydrate.antt =====
-- internal/orchestrator/runstore.go: `ResumeFromRecord`, on a record that the run store kept.
mod Completed
mod Tests
use agent_builder.Common.{Option, none, some, List, [], ◌∷◌, ◌++◌, ℕ, if◌then◌else◌}
use agent_builder.Common.Text.{codes}
use agent_builder.Loop.{Io, ◌>>=◌, pure}
use agent_builder.Runstore.{Record, AttemptState}
use agent_builder.Orchestrator.{SubGoal, Plan}
use agent_builder.Orchestrator.Core.{Fleet, Parts}
use agent_builder.Orchestrator.Journal.{has_completed, finalize_goal_status}
use agent_builder.Orchestrator.Dispatch.{dispatch_sub_goals}
use agent_builder.Orchestrator.Flow.{Answer, Schedule, of_goal, empty_result}

-- The sub-goals without a completed attempt.
unfoldable pub remaining : List AttemptState → List SubGoal → List SubGoal
unfolding has_completed
remaining attempts [] = []
remaining attempts (s ∷ subs) =
    let rest = remaining attempts subs in
    if has_completed attempts s.task.id then rest else s ∷ rest

module _ {W C : Type 0} (o : Parts W) where
  unfoldable pub resume_remaining : Plan → Schedule → List SubGoal → Io (Fleet W C) Answer
  unfolding finalize_goal_status of_goal dispatch_sub_goals
  resume_remaining plan schedule [] = do
    finalized ← finalize_goal_status o plan
    pure (some (of_goal plan.goal, none))
  resume_remaining plan schedule (s ∷ subs) = dispatch_sub_goals o plan (s ∷ subs) schedule

  unfoldable pub resume_unmarshalled : Record → Schedule → Option Plan → Io (Fleet W C) Answer
  unfolding empty_result resume_remaining remaining
  resume_unmarshalled r schedule none = pure (
      some (
        empty_result,
        some
            (codes "orchestrator: resume goal " ++ (o.quote r.goal_id ++ codes ": unmarshal plan")),
      ))
  resume_unmarshalled r schedule (some plan) =
      resume_remaining plan schedule (remaining r.attempts plan.sub_goals)

  unfoldable pub resume_from_record : Record → Schedule → Io (Fleet W C) Answer
  unfolding resume_unmarshalled
  resume_from_record r schedule = resume_unmarshalled r schedule (o.unmarshal r.plan)
