-- ===== src/Loop/Attempts.antt =====
-- The attempts at a task, and the ends of a call of RetryingLoop.RunOnce, written without its loop.
use agent_builder.Common.{◌≡◌, ◌≢◌, true, none, some, List, ℕ, suc, String}
use agent_builder.Common.Int.{◌≤ℤ◌, pos, int_eq}
use agent_builder.Loop.{Task, ok, Executor, Outcome, Loop, run_once, zero_outcome}
use agent_builder.Loop.Cycle.{IsVerified}
use agent_builder.Loop.Retry.{
  RetryingLoop, RetryOutcome, RetryOutcomeKind, escalated, single_task_source, fed_back,
  done_outcome, needs_human, zero_retry_outcome,
}

-- The cycle of one attempt.
abbrev pub cycle_of : {W : Type 0} → RetryingLoop W → Task → Executor W → Loop W
cycle_of l task executor = record {
  source = single_task_source task;
  executor = executor;
  gate = l.gate;
  worktree_path = l.worktree_path;
}

-- From the state `before`, the one thing done is to write `needs-human` for the task, and the outcome
-- says so, with the number of attempts and the outcome of the last one.
pub record IsHandedOver {W : Type 0} (l : RetryingLoop W) (task : Task) (last : Outcome)
    (before : W) (o : RetryOutcome) (final : W) : Type 0 where
  pub kind : o.kind ≡ escalated
  pub task_kept : o.task ≡ task
  pub attempts : o.attempts ≡ l.max_attempts
  pub last_kept : o.last_outcome ≡ last
  pub written : l.status_writer task.id needs_human before ≡ (ok o.status_write, final)

-- The attempts from the one with the number on, with the task and the executor of that one, from one
-- state to another. Each but the last leaves its cycle unverified and has a number other than the
-- bound; the hook is then asked once, and names the executor of the next.
pub data Attempts {W : Type 0} (quote : String → List ℕ) (l : RetryingLoop W) (o : RetryOutcome)
    (final : W) : ℕ → Task → Executor W → W → Type 0 where
  verified :
      (n : ℕ) (task : Task) (executor : Executor W) (w : W)
      → IsVerified (cycle_of l task executor) w
      → o ≡ done_outcome task n (run_once (cycle_of l task executor) w).0.0
      → final ≡ (run_once (cycle_of l task executor) w).1
      → Attempts quote l o final n task executor w
  given_up :
      (n : ℕ) (task : Task) (executor : Executor W) (w : W)
      → ¬ IsVerified (cycle_of l task executor) w
      → pos n ≡ l.max_attempts
      → IsHandedOver l task
          (run_once (cycle_of l task executor) w).0.0
          (run_once (cycle_of l task executor) w).1
          o
          final
      → Attempts quote l o final n task executor w
  retried :
      (n : ℕ) (task : Task) (executor next : Executor W) (w v : W)
      → ¬ IsVerified (cycle_of l task executor) w
      → pos n ≢ l.max_attempts
      → (let outcome = (run_once (cycle_of l task executor) w).0.0 in
          l.escalate
            (record {
              task = fed_back quote task outcome;
              attempt = n;
              outcome = outcome;
              current_executor = executor;
            })
            (run_once (cycle_of l task executor) w).1
          ≡ (ok (some next), v))
      → Attempts quote l o final
          (suc n)
          (fed_back quote task (run_once (cycle_of l task executor) w).0.0)
          next
          v
      → Attempts quote l o final n task executor w

-- The whole call: no task was there, or the bound allows no attempt, or attempts were made.
pub data Settled {W : Type 0} (quote : String → List ℕ) (l : RetryingLoop W) (w : W)
    (o : RetryOutcome) (final : W) : Type 0 where
  nothing_to_do :
      l.source w ≡ (ok none, final)
      → o ≡ record (zero_retry_outcome RetryOutcomeKind.idle) { terminal = true }
      → Settled quote l w o final
  never_tried :
      (task : Task) (v : W)
      → l.source w ≡ (ok (some task), v)
      → l.max_attempts ≤ℤ pos 0
      → IsHandedOver l task zero_outcome v o final
      → Settled quote l w o final
  tried :
      (task : Task) (v : W)
      → l.source w ≡ (ok (some task), v)
      → pos 1 ≤ℤ l.max_attempts
      → Attempts quote l o final 1 task l.executor v
      → Settled quote l w o final
