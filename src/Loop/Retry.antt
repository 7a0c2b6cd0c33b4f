-- ===== src/Loop/Retry.antt =====
-- internal/loop/retry_policy.go: one task, attempted up to a bound, then handed to a human.
use agent_builder.Common.{Bool, true, false, Option, none, some, ℕ, zero, suc, String, List}
use agent_builder.Common.{◌==◌, if◌then◌else◌}
use agent_builder.Common.Int.{ℤ, pos, pos_part, lt_int, int_eq}
use agent_builder.Loop.{
  Task, Io, ◌>>=◌, pure, Fallible, fault, TaskSource, Executor, Gate, Outcome, OutcomeKind, fail,
  Error, pick_failed, unexpected_outcome, hook_failed, hook_nil_executor, mark_failed,
  negative_max_attempts, nil_status_writer, nil_escalation_hook, zero_task, zero_outcome, Result,
  returns, raises, Loop, new_loop, run_once,
}
use agent_builder.Loop.Format.{format_failure}

-- internal/tasksource/status_writer.go
pub data WritableStatus : Type 0 where
  done blocked needs_human : WritableStatus

pub record StatusWriteResult : Type 0 where
  pub path : String
  pub changed : Bool

pub record EscalationRequest (W : Type 0) : Type 0 where
  pub task : Task
  pub attempt : ℕ
  pub outcome : Outcome
  pub current_executor : Executor W

-- The executor of the next attempt; `none` is nil.
abbrev pub EscalationHook : Type 0 → Type 0
EscalationHook W = EscalationRequest W → Io W (Fallible (Option (Executor W)))

unfoldable pub bootstrap_escalation_hook : {W : Type 0} → EscalationHook W
bootstrap_escalation_hook request = pure (Fallible.ok (some request.current_executor))

abbrev pub StatusWriter : Type 0 → Type 0
StatusWriter W = String → WritableStatus → Io W (Fallible StatusWriteResult)

pub record RetryPolicy (W : Type 0) : Type 0 where
  pub max_attempts : ℤ
  pub escalate : Option (EscalationHook W)

pub data RetryOutcomeKind : Type 0 where
  idle done escalated : RetryOutcomeKind

pub record RetryOutcome : Type 0 where
  pub kind : RetryOutcomeKind
  pub task : Task
  pub branch : String
  pub attempts : ℤ
  pub last_outcome : Outcome
  pub status_write : StatusWriteResult
  pub advanced : Bool
  pub terminal : Bool

abbrev pub zero_retry_outcome : RetryOutcomeKind → RetryOutcome
zero_retry_outcome kind = record {
  kind = kind;
  task = zero_task;
  branch = "";
  attempts = pos 0;
  last_outcome = zero_outcome;
  status_write = record { path = ""; changed = false };
  advanced = false;
  terminal = false;
}

-- A validated loop: the hook and the writer are not nil.
pub record RetryingLoop (W : Type 0) : Type 0 where
  pub source : TaskSource W
  pub executor : Executor W
  pub gate : Gate W
  pub worktree_path : String
  pub status_writer : StatusWriter W
  pub max_attempts : ℤ
  pub escalate : EscalationHook W

abbrev pub escalated_outcome : Task → ℤ → Outcome → Fallible StatusWriteResult → Result RetryOutcome
escalated_outcome task attempts last (fault e) = raises (mark_failed task.id e)
escalated_outcome task attempts last (Fallible.ok written) =
    returns (record (zero_retry_outcome escalated) {
      task = task;
      attempts = attempts;
      last_outcome = last;
      status_write = written;
      advanced = true;
      terminal = true;
    })

abbrev pub done_outcome : Task → ℕ → Outcome → RetryOutcome
done_outcome task attempt outcome = record (zero_retry_outcome RetryOutcomeKind.done) {
  task = task;
  branch = outcome.branch;
  attempts = pos attempt;
  last_outcome = outcome;
  advanced = true;
  terminal = true;
}

module _ {W : Type 0} where
  abbrev pub with_writer :
      Option (StatusWriter W) → Result (Loop W) → ℤ → EscalationHook W → Result (RetryingLoop W)
  with_writer none l max hook = raises nil_status_writer
  with_writer (some writer) (raises e) max hook = raises e
  with_writer (some writer) (returns l) max hook = returns (record {
    source = l.source;
    executor = l.executor;
    gate = l.gate;
    worktree_path = l.worktree_path;
    status_writer = writer;
    max_attempts = max;
    escalate = hook;
  })

  -- validateRetryPolicy
  abbrev pub validated : RetryPolicy W → Result (EscalationHook W)
  validated policy =
      if lt_int policy.max_attempts (pos 0)
      then raises negative_max_attempts
      else elim policy.escalate [ none ↦ raises nil_escalation_hook | some hook ↦ returns hook ]

  -- NewRetryingLoop
  unfoldable pub new_retrying_loop :
      Option (TaskSource W)
      → Option (Executor W)
      → Option (Gate W)
      → String
      → Option (StatusWriter W)
      → RetryPolicy W
      → Result (RetryingLoop W)
  unfolding new_loop lt_int
  new_retrying_loop source executor gate path writer policy = elim (validated policy) [
    | raises e ↦ raises e
    | returns hook ↦
        with_writer writer (new_loop source executor gate path) policy.max_attempts hook
  ]

  unfoldable pub mark_needs_human : RetryingLoop W → Task → ℤ → Outcome → Io W (Result RetryOutcome)
  mark_needs_human l task attempts last = do
    written ← l.status_writer task.id needs_human
    pure (escalated_outcome task attempts last written)

-- task.PriorFailure = FormatFailure(outcome)
abbrev pub fed_back : (String → List ℕ) → Task → Outcome → Task
fed_back quote task outcome = record task { prior_failure = format_failure quote outcome }

abbrev pub single_task_source : {W : Type 0} → Task → TaskSource W
single_task_source task = pure (Fallible.ok (some task))

-- What follows the call of the hook. `again` is the next round.
unfoldable pub after_hook :
    {W : Type 0}
    → (Task → Executor W → Outcome → Io W (Result RetryOutcome))
    → Task
    → ℕ
    → Outcome
    → Fallible (Option (Executor W))
    → Io W (Result RetryOutcome)
after_hook again task attempt outcome (fault e) = pure (raises (hook_failed attempt e))
after_hook again task attempt outcome (Fallible.ok none) = pure (raises (hook_nil_executor attempt))
after_hook again task attempt outcome (Fallible.ok (some executor)) = again task executor outcome

module _ (quote : String → List ℕ) {W : Type 0} where
  -- The rest of the body of the for loop, from `switch outcome.Kind` on. `again` is the next round.
  unfoldable pub after_cycle :
      (Task → Executor W → Outcome → Io W (Result RetryOutcome))
      → RetryingLoop W
      → Task
      → Executor W
      → ℕ
      → Outcome
      → OutcomeKind
      → Io W (Result RetryOutcome)
  unfolding mark_needs_human after_hook int_eq
  after_cycle again l task executor attempt outcome OutcomeKind.done =
      pure (returns (done_outcome task attempt outcome))
  after_cycle again l task executor attempt outcome fail =
      if pos attempt == l.max_attempts then mark_needs_human l task l.max_attempts outcome else do
        let next_task = fed_back quote task outcome
        next ← l.escalate (record {
          task = next_task;
          attempt = attempt;
          outcome = outcome;
          current_executor = executor;
        })
        after_hook again next_task attempt outcome next
  after_cycle again l task executor attempt outcome kind = pure (raises (unexpected_outcome kind))

  -- What follows the cycle's RunOnce.
  unfoldable pub after_run :
      (Task → Executor W → Outcome → Io W (Result RetryOutcome))
      → RetryingLoop W
      → Task
      → Executor W
      → ℕ
      → Outcome × Option Error
      → Io W (Result RetryOutcome)
  unfolding after_cycle
  after_run again l task executor attempt (outcome, some e) = pure (raises e)
  after_run again l task executor attempt (outcome, none) =
      after_cycle again l task executor attempt outcome outcome.kind

  unfoldable pub round :
      (Task → Executor W → Outcome → Io W (Result RetryOutcome))
      → RetryingLoop W
      → Task
      → Executor W
      → ℕ
      → Result (Loop W)
      → Io W (Result RetryOutcome)
  unfolding after_run run_once
  round again l task executor attempt (raises e) = pure (raises e)
  round again l task executor attempt (returns cycle) = do
    ran ← run_once cycle
    after_run again l task executor attempt ran

  -- The for loop, with the rounds that are left.
  unfoldable pub attempts_from :
      ℕ → ℕ → RetryingLoop W → Task → Executor W → Outcome → Io W (Result RetryOutcome)
  unfolding round new_loop
  attempts_from zero attempt l task executor last = mark_needs_human l task l.max_attempts last
  attempts_from (suc left) attempt l task executor last =
      round (attempts_from left (suc attempt) l) l task executor attempt
        (new_loop (some (single_task_source task)) (some executor) (some l.gate) l.worktree_path)

  abbrev pub with_task : RetryingLoop W → Fallible (Option Task) → Io W (Result RetryOutcome)
  with_task l (fault e) = pure (raises (pick_failed e))
  with_task l (Fallible.ok none) =
      pure (returns (record (zero_retry_outcome RetryOutcomeKind.idle) { terminal = true }))
  with_task l (Fallible.ok (some task)) =
      if l.max_attempts == pos 0
      then mark_needs_human l task (pos 0) zero_outcome
      else attempts_from (pos_part l.max_attempts) 1 l task l.executor zero_outcome

  -- RetryingLoop.RunOnce
  unfoldable pub retry_once : RetryingLoop W → Io W (Result RetryOutcome)
  unfolding attempts_from mark_needs_human int_eq
  retry_once l = do next ← l.source; with_task l next
