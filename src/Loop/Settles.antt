-- ===== src/Loop/Settles.antt =====
-- How a call of RetryingLoop.RunOnce ends.
use agent_builder.Common.{
  ◌≡◌, ◌≢◌, refl, sym, ap, subst, Option, none, some, List, arith, ℕ, zero, suc, ◌+◌, String,
  Bool-cases, inl, inr, ◌==◌, eq_of_==, ne_of_==,
}
use agent_builder.Common.Int.{ℤ, ◌≤ℤ◌, pos, negsuc, pos_part, int_eq}
use agent_builder.Common.Text.{is_blank, codes}
use agent_builder.Loop.{
  Task, Fallible, ok, fault, TaskSource, Executor, Gate, Outcome, OutcomeKind, idle, done, fail,
  unset, Loop, run_once, new_loop, Result, returns, raises, Io, Error, zero_outcome,
}
use agent_builder.Loop.Cycle.{IsVerified, done_iff_IsVerified}
use agent_builder.Loop.Retry.{
  RetryingLoop, RetryOutcome, EscalationRequest, single_task_source, fed_back, after_hook,
  after_cycle, after_run, round, attempts_from, mark_needs_human, with_task, retry_once,
}
use agent_builder.Loop.Attempts.{
  cycle_of, IsHandedOver, Attempts, verified, given_up, retried, Settled, nothing_to_do,
  never_tried, tried,
}

new_loop-returns :
    {W : Type 0} (source : TaskSource W) (executor : Executor W) (gate : Gate W) (path : String)
    (cycle : Loop W)
    → new_loop (some source) (some executor) (some gate) path ≡ returns cycle
    → cycle ≡ record { source = source; executor = executor; gate = gate; worktree_path = path }
unfolding new_loop
new_loop-returns source executor gate path cycle h = elim (Bool-cases (is_blank (codes path))) [
  | inl blank ↦ cc (rw blank at h)
  | inr named ↦ ground arith
]

module _ {W : Type 0} (quote : String → List ℕ) (l : RetryingLoop W) where
  failed_lem :
      (task : Task) (executor : Executor W) (w : W)
      → (run_once (cycle_of l task executor) w).0.0.kind ≡ fail
      → ¬ IsVerified (cycle_of l task executor) w
  failed_lem task executor w failed v =
      let reached = (done_iff_IsVerified (cycle_of l task executor) w).1 v in
      absurd cc (failed, reached)

  mark-IsHandedOver :
      (task : Task) (last : Outcome) (w : W) (o : RetryOutcome) (attempts : ℤ)
      → attempts ≡ l.max_attempts
      → (mark_needs_human l task attempts last w).0 ≡ returns o
      → IsHandedOver l task last w o (mark_needs_human l task attempts last w).1
  unfolding mark_needs_human
  mark-IsHandedOver task last w o attempts e h = record {
    kind = ground arith;
    task_kept = ground arith;
    attempts = ground arith;
    last_kept = ground arith;
    written = ground arith;
  }

  -- What a result says of the attempts from number `n` on.
  abbrev Ends : ℕ → Task → Executor W → W → Result RetryOutcome × W → Type 0
  Ends n task executor w (r, final) =
      (o : RetryOutcome) → r ≡ returns o → Attempts quote l o final n task executor w

  module _ (again : Task → Executor W → Outcome → Io W (Result RetryOutcome)) (n : ℕ)
      (ih : pos n ≢ l.max_attempts
        → (t : Task) (e : Executor W) (o : Outcome) (v : W) → Ends (suc n) t e v (again t e o v))
      (task : Task) (executor : Executor W) (w : W) where
    abbrev outcome : Outcome
    outcome = (run_once (cycle_of l task executor) w).0.0

    abbrev request : EscalationRequest W
    request = record {
      task = fed_back quote task outcome;
      attempt = n;
      outcome = outcome;
      current_executor = executor;
    }

    hook-Ends :
        (next : Fallible (Option (Executor W))) (v : W)
        → outcome.kind ≡ fail
        → pos n ≢ l.max_attempts
        → l.escalate request (run_once (cycle_of l task executor) w).1 ≡ (next, v)
        → Ends n task executor w (after_hook again request.task n outcome next v)
    unfolding after_hook
    hook-Ends (fault e) v failed more h o p = absurd cc (p)
    hook-Ends (ok none) v failed more h o p = absurd cc (p)
    hook-Ends (ok (some e)) v failed more h o p =
        retried n task executor e w v (failed_lem task executor w failed) more h
          (ih more request.task e outcome v o p)

    cycle-Ends :
        (kind : OutcomeKind)
        → outcome.kind ≡ kind
        → Ends n task executor w (
            after_cycle quote again l task executor n outcome kind
              (run_once (cycle_of l task executor) w).1)
    unfolding after_cycle
    cycle-Ends done k = λ o p.
        verified n task executor w ((done_iff_IsVerified (cycle_of l task executor) w).0 k)
          (ground arith) refl
    cycle-Ends fail k = elim (Bool-cases (pos n == l.max_attempts)) [
      | inl last ↦ rw last (λ o p.
          given_up n task executor w (failed_lem task executor w k) (eq_of_== _ _ last)
            (mark-IsHandedOver task outcome _ o l.max_attempts refl p))
      | inr more ↦ rw more (
          hook-Ends (l.escalate request (run_once (cycle_of l task executor) w).1).0
            (l.escalate request (run_once (cycle_of l task executor) w).1).1 k (ne_of_== _ _ more)
            refl)
    ]
    cycle-Ends idle k = λ o p. absurd cc (p)
    cycle-Ends unset k = λ o p. absurd cc (p)

    run-Ends :
        (err : Option Error)
        → Ends n task executor w (
            after_run quote again l task executor n
              (outcome, err)
              (run_once (cycle_of l task executor) w).1)
    unfolding after_run
    run-Ends (some e) = λ o p. absurd cc (p)
    run-Ends none = cycle-Ends outcome.kind refl

    round-Ends :
        (made : Result (Loop W))
        → ((cycle : Loop W) → made ≡ returns cycle → cycle ≡ cycle_of l task executor)
        → Ends n task executor w (round quote again l task executor n made w)
    unfolding round
    round-Ends (raises e) same = λ o p. absurd cc (p)
    round-Ends (returns cycle) same =
        subst (λ c. Ends n task executor w (round quote again l task executor n (returns c) w))
          (sym (same cycle refl)) (run-Ends (run_once (cycle_of l task executor) w).0.1)

  attempts-Ends :
      (left n : ℕ) (task : Task) (executor : Executor W) (last : Outcome) (w : W)
      → l.max_attempts ≡ pos (n + left)
      → Ends n task executor w (attempts_from quote (suc left) n l task executor last w)
  unfolding attempts_from
  attempts-Ends zero n task executor last w e =
      round-Ends (attempts_from quote zero (suc n) l) n (λ more. absurd (more (ground arith))) task
        executor w
        (new_loop (some (single_task_source task)) (some executor) (some l.gate) l.worktree_path)
        (new_loop-returns (single_task_source task) executor l.gate l.worktree_path)
  attempts-Ends (suc left) n task executor last w e =
      round-Ends (attempts_from quote (suc left) (suc n) l) n
        (λ more t x o v. attempts-Ends left (suc n) t x o v (ground arith)) task executor w
        (new_loop (some (single_task_source task)) (some executor) (some l.gate) l.worktree_path)
        (new_loop-returns (single_task_source task) executor l.gate l.worktree_path)

  none_left : (max : ℤ) → pos_part max ≡ 0 → max ≤ℤ pos 0
  none_left (pos n) h = omega arith
  none_left (negsuc n) h = omega arith

  some_left :
      (max : ℤ) (left : ℕ) → pos_part max ≡ suc left → (max ≡ pos (1 + left)) × (pos 1 ≤ℤ max)
  some_left (pos n) left h = (ap pos (omega arith), omega arith)
  some_left (negsuc n) left h = absurd (omega arith)

  bounded-Settled :
      (bound : ℕ) (task : Task) (w v : W) (o : RetryOutcome)
      → pos_part l.max_attempts ≡ bound
      → l.source w ≡ (ok (some task), v)
      → (attempts_from quote bound 1 l task l.executor zero_outcome v).0 ≡ returns o
      → Settled quote l w o (attempts_from quote bound 1 l task l.executor zero_outcome v).1
  unfolding attempts_from
  bounded-Settled zero task w v o e s p =
      never_tried task v s (none_left l.max_attempts e)
        (mark-IsHandedOver task zero_outcome v o l.max_attempts refl p)
  bounded-Settled (suc left) task w v o e s p =
      let (bound, positive) = some_left l.max_attempts left e in
      tried task v s positive (attempts-Ends left 1 task l.executor zero_outcome v bound o p)

  task-Settled :
      (next : Fallible (Option Task)) (w v : W)
      → l.source w ≡ (next, v)
      → (o : RetryOutcome) → (with_task quote l next v).0 ≡ returns o
      → Settled quote l w o (with_task quote l next v).1
  task-Settled (fault e) w v s = λ o p. absurd cc (p)
  task-Settled (ok none) w v s = λ o p. nothing_to_do s (ground arith)
  task-Settled (ok (some task)) w v s = elim (Bool-cases (l.max_attempts == pos 0)) [
    | inl never ↦ rw never (λ o p.
        let none_allowed = eq_of_== l.max_attempts (pos 0) never in
        never_tried task v s (none_left l.max_attempts (ap pos_part none_allowed))
          (mark-IsHandedOver task zero_outcome v o (pos 0) (sym none_allowed) p))
    | inr more ↦ rw more (λ o p. bounded-Settled _ task w v o refl s p)
  ]

  -- A call of RunOnce that returns an outcome has found that the source has no task; or has made no
  -- attempt at the task, since the bound is not positive; or has attempted it until a cycle was
  -- verified, or as often as the bound says, each time with the failure of the attempt before and the
  -- executor that the hook named. An attempt is verified where the executor believes that it completed
  -- the task and the gate passed what it left. Without a verified attempt, the last thing that the
  -- call did was to write `needs-human` for the task. The outcome reports the end, the number of
  -- attempts, and the last one's outcome.
  pub retry_settles :
      (w : W) (o : RetryOutcome)
      → (retry_once quote l w).0 ≡ returns o
      → Settled quote l w o (retry_once quote l w).1
  unfolding retry_once
  retry_settles w o p = task-Settled (l.source w).0 w (l.source w).1 refl o p
