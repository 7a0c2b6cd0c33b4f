-- ===== src/Orchestrator/Resume/Guarded.antt =====
-- What an approval has to be.
use agent_builder.Common.{◌≡◌, refl, false, Option, none, some, List, ℕ, Bool-cases, inl, inr, ◌&&◌}
use agent_builder.Orchestrator.{GoalTask, Plan}
use agent_builder.Orchestrator.Core.{
  Fleet, Parts, Err, TamperAware, outside, report, emit_tamper_event,
}
use agent_builder.Orchestrator.Flow.{Schedule}
use agent_builder.Orchestrator.Dispatch.Kept.{IsStill, report-Keeps, event-Keeps}
use agent_builder.Orchestrator.Resume.{
  Approval, has_roles, after_try_delete, delete_stored, drain, reject, resume_deleted,
  resume_stored, resume, fold_deleted, fold_stored, resume_with_fold,
}

module _ {W C : Type 0} (o : Parts W) (Q : W → Type 0) (still : IsStill o Q) where
  abbrev Kept : {A : Type 0} → (Fleet W C → A × Fleet W C) → Type 0
  Kept m = (f : Fleet W C) → Q f.world → Q (m f).1.world

  try_delete-Keeps : (goal_id : List ℕ) (err : Err) → Kept (after_try_delete o goal_id err)
  unfolding after_try_delete emit_tamper_event
  try_delete-Keeps goal_id none f q = q
  try_delete-Keeps goal_id (some e) f q = event-Keeps o Q still.quiet o.audit_sink _ refl f q

  delete-Keeps :
      (goal_id : List ℕ) (ta : Option (TamperAware W))
      → o.store.tamper_aware ≡ ta
      → Kept (delete_stored o goal_id ta)
  unfolding delete_stored outside
  delete-Keeps goal_id none e f q = still.deletes goal_id f.world q
  delete-Keeps goal_id (some ta) e f q =
      try_delete-Keeps goal_id _ _ (still.try_deletes ta e goal_id f.world q)

  reject-Keeps : (plan : Plan) → Kept (reject o plan)
  unfolding reject
  reject-Keeps plan f q = report-Keeps o Q still.quiet _ f q

  module _ (a : Approval) (refused : a.approved ≡ false) where
    resume_deleted-Keeps :
        (schedule : Schedule) (plan : Plan) (err : Err)
        → Kept (resume_deleted o a schedule plan err)
    unfolding resume_deleted
    resume_deleted-Keeps schedule plan (some e) f q = q
    resume_deleted-Keeps schedule plan none f q = rw refused (reject-Keeps plan f q)

    fold_deleted-Keeps :
        (goal : GoalTask) (schedule : Schedule) (plan : Plan) (err : Err)
        → Kept (fold_deleted o a goal schedule plan err)
    unfolding fold_deleted drain reject report outside
    fold_deleted-Keeps goal schedule plan (some e) f q = q
    fold_deleted-Keeps goal schedule plan none f q = rw refused (still.quiet.reports _ f.world q)

    resume_stored-Keeps :
        (schedule : Schedule) (plan : Option Plan) → Kept (resume_stored o a schedule plan)
    unfolding resume_stored
    resume_stored-Keeps schedule none f q = q
    resume_stored-Keeps schedule (some plan) f q =
        resume_deleted-Keeps schedule plan _ _
          (delete-Keeps a.goal_id o.store.tamper_aware refl f q)

    fold_stored-Keeps :
        (goal : GoalTask) (schedule : Schedule) (plan : Option Plan)
        → Kept (fold_stored o a goal schedule plan)
    unfolding fold_stored
    fold_stored-Keeps goal schedule none f q = q
    fold_stored-Keeps goal schedule (some plan) f q =
        fold_deleted-Keeps goal schedule plan _ _
          (delete-Keeps a.goal_id o.store.tamper_aware refl f q)

    refused-Keeps :
        (goal : GoalTask) (schedule : Schedule) (f : Fleet W C)
        → Q f.world
        → Q (resume o a schedule f).1.world × Q (resume_with_fold o a goal schedule f).1.world
    unfolding resume resume_with_fold outside
    refused-Keeps goal schedule f q = elim (Bool-cases (has_roles a)) [
      | inr other ↦ rw other (q, q)
      | inl roles ↦
          let q' = still.gets a.goal_id f.world q in
          rw roles (resume_stored-Keeps schedule _ _ q', fold_stored-Keeps goal schedule _ _ q')
    ]

  roles-keep :
      (a : Approval) (goal : GoalTask) (schedule : Schedule) (f : Fleet W C)
      → has_roles a ≡ false
      → Q f.world
      → Q (resume o a schedule f).1.world × Q (resume_with_fold o a goal schedule f).1.world
  unfolding resume resume_with_fold
  roles-keep a goal schedule f other q = rw other (q, q)

  -- A message that is not an approval, or whose envelope is not from the operator to the orchestrator,
  -- makes Resume and ResumeWithFold keep every property of the world that all the parts of the
  -- orchestrator but the dispatch keep: nothing is dispatched.
  pub refusal_dispatches_nothing :
      (a : Approval) (goal : GoalTask) (schedule : Schedule) (f : Fleet W C)
      → (has_roles a && a.approved) ≡ false
      → Q f.world
      → Q (resume o a schedule f).1.world × Q (resume_with_fold o a goal schedule f).1.world
  refusal_dispatches_nothing a goal schedule f h q = elim (Bool-cases (has_roles a)) [
    | inr other ↦ roles-keep a goal schedule f other q
    | inl roles ↦ refused-Keeps a (rw roles at h) goal schedule f q
  ]
