-- ===== src/Orchestrator/Approvals/Only.antt =====
-- What an answered approval dispatches.
use agent_builder.Common.{
  ◌≡◌, refl, Bool, true, false, Option, none, some, List, [], ◌∷◌, ℕ, ◌==◌, Bool-cases, inl, inr,
  eq_of_==,
}
use agent_builder.Common.Text.{text_eq}
use agent_builder.Runstore.{Record, PendingApproval, Status, awaiting_approval}
use agent_builder.Orchestrator.{SubGoal, Plan}
use agent_builder.Orchestrator.Core.{
  Fleet, Parts, Err, RunStore, Loaded, load_failed, missing, loaded, outside, when,
}
use agent_builder.Orchestrator.Journal.{record_attempt, save_quietly}
use agent_builder.Orchestrator.Worker.{waiting}
use agent_builder.Orchestrator.Dispatch.Kept.{
  IsQuiet, IsKept, IsCleared, Keeps, report-Keeps, save-Keeps, attempt-Keeps,
}
use agent_builder.Orchestrator.Dispatch.Permitted.{step-Clears}
use agent_builder.Orchestrator.Approvals.{
  find_task, is_final, dispatch_one, report_final, finalize_pending, finalize_found,
  finalize_after_approval, after_one, dispatch_found, approve_plan, answer_pending, resume_kept,
  resume_loaded, resume_approval_in, resume_approval, final_status, without_pending, resumed,
}

-- The operator approved, and the sub-goal is the one asked about.
abbrev pub IsAsked : Bool → List ℕ → SubGoal → Type 0
IsAsked approved task_id sub = (approved ≡ true) × (sub.task.id ≡ task_id)

find_task-id :
    (task_id : List ℕ) (subs : List SubGoal) (sub : SubGoal)
    → find_task task_id subs ≡ some sub
    → sub.task.id ≡ task_id
unfolding find_task
find_task-id task_id [] sub e = absurd cc
find_task-id task_id (s ∷ subs) sub e = elim (Bool-cases (s.task.id == task_id)) [
  | inl same ↦ let it = eq_of_== s.task.id task_id same in cc (e, same, it)
  | inr other ↦ find_task-id task_id subs sub (cc (e, other))
]

module _ {W C : Type 0} (o : Parts W) (Q : W → Type 0) (quiet : IsQuiet o Q) where
  abbrev Keeps_ : {A : Type 0} → (Fleet W C → A × Fleet W C) → Type 0
  Keeps_ m = Keeps {C = C} o Q quiet m

  when-Keeps : (b : Bool) (m : Fleet W C → Unit × Fleet W C) → Keeps_ m → Keeps_ (when b m)
  unfolding when
  when-Keeps true m k f q = k f q
  when-Keeps false m k f q = q

  report_final-Keeps : (goal_id : List ℕ) (s : Status) → Keeps_ (report_final o goal_id s)
  unfolding report_final
  report_final-Keeps goal_id s = when-Keeps (is_final s) _ (λ f q. report-Keeps o Q quiet _ f q)

  module _ (rs : RunStore W) (given : o.run_store ≡ some rs) where
    finalize_found-Keeps :
        (goal_id : List ℕ) (found : Loaded) → Keeps_ (finalize_found o rs goal_id found)
    unfolding finalize_found finalize_pending
    finalize_found-Keeps goal_id load_failed f q = q
    finalize_found-Keeps goal_id missing f q = q
    finalize_found-Keeps goal_id (loaded r) f q = go r.pending_approvals
      where
        go : (ps : List PendingApproval) → Q (finalize_pending o rs goal_id r ps f).1.world
        go [] =
            let final = some (record r { status = final_status r.attempts }) in
            report_final-Keeps goal_id (final_status r.attempts) (save_quietly rs final f).1
              (save-Keeps o Q quiet rs given final f q)
        go (p ∷ ps) =
            save-Keeps o Q quiet rs given (some (record r { status = awaiting_approval })) f q

    finalize_after-Keeps : (goal_id : List ℕ) → Keeps_ (finalize_after_approval o rs goal_id)
    unfolding finalize_after_approval outside
    finalize_after-Keeps goal_id f q =
        finalize_found-Keeps goal_id (rs.load goal_id f.world).0 (outside (rs.load goal_id) f).1
          (quiet.loads rs given goal_id f.world q)

    after_one-Keeps :
        (goal_id : List ℕ) (result : Option Err) → Keeps_ (after_one o rs goal_id result)
    unfolding after_one
    after_one-Keeps goal_id none f q = q
    after_one-Keeps goal_id (some (some e)) f q = q
    after_one-Keeps goal_id (some none) f q = finalize_after-Keeps goal_id f q

module _ {W C : Type 0} (o : Parts W) (Q : W → Type 0) (approved : Bool) (task_id : List ℕ) where
  module _ (plan : Plan) (kept : IsKept o Q plan (IsAsked approved task_id)) where
    dispatch_one-Keeps :
        (sub : SubGoal) (first : Bool) (f : Fleet W C)
        → IsAsked approved task_id sub
        → Q f.world
        → Q (dispatch_one o plan sub first f).1.world
    unfolding dispatch_one IsCleared
    dispatch_one-Keeps sub first f asked q =
        let clears = step-Clears o Q plan (IsAsked approved task_id) kept sub first in
        let (q1, c1) = clears waiting asked f q in
        let (q2, c2) = clears _ c1 _ q1 in (clears _ c2 _ q2).0

    dispatch_found-Keeps :
        (rs : RunStore W)
        → o.run_store ≡ some rs
        → approved ≡ true
        → (goal_id : List ℕ) (first : Bool) (target : Option SubGoal)
        → find_task task_id plan.sub_goals ≡ target
        → (f : Fleet W C) → Q f.world
        → Q (dispatch_found o rs goal_id first plan target f).1.world
    unfolding dispatch_found
    dispatch_found-Keeps rs given agreed goal_id first none e f q = q
    dispatch_found-Keeps rs given agreed goal_id first (some sub) e f q =
        after_one-Keeps o Q kept.quiet rs given goal_id _ _
          (dispatch_one-Keeps sub first f (agreed, find_task-id task_id plan.sub_goals sub e) q)

  module _ (quiet : IsQuiet o Q)
      (kept : (text : Option (List ℕ)) (plan : Plan)
        → o.unmarshal text ≡ some plan
        → IsKept o Q plan (IsAsked approved task_id))
      (goal_id : List ℕ) (first : Bool) where
    module _ (rs : RunStore W) (given : o.run_store ≡ some rs) where
      answer-Keeps :
          (r : Record) (answer : Bool)
          → approved ≡ answer
          → (f : Fleet W C) → Q f.world
          → Q (answer_pending o rs goal_id task_id answer first r f).1.world
      unfolding answer_pending approve_plan record_attempt
      answer-Keeps r false refused f q =
          finalize_after-Keeps o Q quiet rs given goal_id _
            (attempt-Keeps o Q quiet o.run_store goal_id task_id _ _ refl f q)
      answer-Keeps r true agreed f q = go (o.unmarshal r.plan) refl
        where
          go :
              (read : Option Plan)
              → o.unmarshal r.plan ≡ read
              → Q (approve_plan o rs goal_id task_id first read f).1.world
          go none e = q
          go (some plan) e =
              dispatch_found-Keeps plan (kept r.plan plan e) rs given agreed goal_id first _ refl f
                q

      kept-Keeps :
          (r : Record) (pending : Bool × List PendingApproval) (f : Fleet W C)
          → Q f.world
          → Q (resume_kept o rs goal_id task_id approved first r pending f).1.world
      unfolding resume_kept
      kept-Keeps r (false, ps) f q = q
      kept-Keeps r (true, ps) f q =
          answer-Keeps r approved refl (save_quietly rs (some (resumed approved ps r)) f).1
            (save-Keeps o Q quiet rs given (some (resumed approved ps r)) f q)

      loaded-Keeps :
          (found : Loaded) (f : Fleet W C)
          → Q f.world
          → Q (resume_loaded o rs goal_id task_id approved first found f).1.world
      unfolding resume_loaded
      loaded-Keeps load_failed f q = q
      loaded-Keeps missing f q = q
      loaded-Keeps (loaded r) f q = kept-Keeps r (without_pending task_id r.pending_approvals) f q

    -- Take any property of the world that reports, decisions, the audit and the run store keep, and the
    -- dispatch of a worker at least where the operator approved, the worker's task is the one asked
    -- about, and a plan that unmarshals permits it. Then ResumeApproval keeps it: a denied approval
    -- dispatches nothing, and an approved one no other task.
    pub approval_dispatches_only :
        (f : Fleet W C) → Q f.world → Q (resume_approval o goal_id task_id approved first f).1.world
    unfolding resume_approval resume_approval_in outside
    approval_dispatches_only f q = go o.run_store refl
      where
        go :
            (rs : Option (RunStore W))
            → o.run_store ≡ rs
            → Q (resume_approval_in o rs goal_id task_id approved first f).1.world
        go none e = q
        go (some rs) e =
            loaded-Keeps rs e (rs.load goal_id f.world).0 (outside (rs.load goal_id) f).1
              (quiet.loads rs e goal_id f.world q)
