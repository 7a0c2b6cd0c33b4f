-- ===== src/Orchestrator/Rehydrate/Completed.antt =====
-- What ResumeFromRecord never dispatches again.
use agent_builder.Common.{
  ◌≡◌, refl, false, Option, none, some, List, [], ◌∷◌, All, Bool-cases, inl, inr,
}
use agent_builder.Runstore.{Record, AttemptState}
use agent_builder.Orchestrator.{SubGoal, Plan}
use agent_builder.Orchestrator.Core.{Fleet, Parts}
use agent_builder.Orchestrator.Journal.{has_completed, finalize_goal_status}
use agent_builder.Orchestrator.Dispatch.Kept.{IsKept, finalize-Keeps}
use agent_builder.Orchestrator.Dispatch.Permitted.{dispatch_permitted}
use agent_builder.Orchestrator.Flow.{Schedule}
use agent_builder.Orchestrator.Rehydrate.{
  remaining, resume_remaining, resume_unmarshalled, resume_from_record,
}

-- No attempt at the task of the sub-goal is completed.
abbrev pub IsOpen : List AttemptState → SubGoal → Type 0
IsOpen attempts sub = has_completed attempts sub.task.id ≡ false

remaining-All :
    (attempts : List AttemptState) (subs : List SubGoal)
    → All (IsOpen attempts) (remaining attempts subs)
unfolding remaining
remaining-All attempts [] = tt
remaining-All attempts (sub ∷ subs) = elim (Bool-cases (has_completed attempts sub.task.id)) [
  | inl closed ↦ rw closed (remaining-All attempts subs)
  | inr unclosed ↦ rw unclosed (unclosed, remaining-All attempts subs)
]

module _ {W C : Type 0} (o : Parts W) (Q : W → Type 0) (r : Record) where
  resume_remaining-Keeps :
      (plan : Plan) (schedule : Schedule) (subs : List SubGoal) (f : Fleet W C)
      → IsKept o Q plan (IsOpen r.attempts)
      → All (IsOpen r.attempts) subs
      → Q f.world
      → Q (resume_remaining o plan schedule subs f).1.world
  unfolding resume_remaining finalize_goal_status
  resume_remaining-Keeps plan schedule [] f kept all q =
      finalize-Keeps o Q kept.quiet o.run_store plan refl f q
  resume_remaining-Keeps plan schedule (sub ∷ subs) f kept all q =
      dispatch_permitted o Q plan (IsOpen r.attempts) kept (sub ∷ subs) schedule f all q

  -- Take any property of the world that every part of the orchestrator keeps, the dispatch of a worker
  -- at least where it is permitted by the plan of the record and no attempt at its task is completed in
  -- the record. Then ResumeFromRecord keeps it, in whatever order the workers run: a completed task is
  -- never dispatched a second time.
  pub completed_not_repeated :
      ((plan : Plan) → o.unmarshal r.plan ≡ some plan → IsKept o Q plan (IsOpen r.attempts))
      → (schedule : Schedule) (f : Fleet W C) → Q f.world
      → Q (resume_from_record o r schedule f).1.world
  unfolding resume_from_record resume_unmarshalled
  completed_not_repeated kept schedule f q = go (o.unmarshal r.plan) refl
    where
      go :
          (read : Option Plan)
          → o.unmarshal r.plan ≡ read
          → Q (resume_unmarshalled o r schedule read f).1.world
      go none e = q
      go (some plan) e =
          resume_remaining-Keeps plan schedule _ f (kept plan e)
            (remaining-All r.attempts plan.sub_goals) q
