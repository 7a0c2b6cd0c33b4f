-- ===== src/Loop.antt =====
-- internal/loop/loop.go: one pick, attempt, verify cycle. The seams (task source, executor, gate,
-- status writer, escalation hook) are not part of this package: they are arguments, functions on a
-- state `W` of all that they can see and change. The context of a call is part of `W`.
pub mod Format
pub mod Truncate
pub mod Retry
pub mod Cycle
pub mod RetryLaws
pub mod Attempts
pub mod Settles
pub mod Reevaluate
mod Tests
use agent_builder.Common.{Bool, Option, none, some, List, [], ◌∷◌, ℕ, String, if◌then◌else◌, not}
use agent_builder.Common.Text.{is_blank, codes}

-- internal/supervisor/supervisor.go. A text that is only passed on is a `String`; what a step
-- prints, and what is formatted from it, is a list of bytes.
pub record Task : Type 0 where
  pub id : String
  pub repo : String
  pub spec : String
  pub prior_failure : List ℕ

pub record ExecutorResult : Type 0 where
  pub branch : String
  pub ok : Bool

-- An error of a seam, by its text.
pub record Fault : Type 0 where
  pub message : List ℕ

pub data Fallible {ℓ} (A : Type ℓ) : Type ℓ where
  ok : A → Fallible A
  fault : Fault → Fallible A

-- internal/gate/gate.go; the duration of a step is left out.
pub record StepResult : Type 0 where
  pub name : List ℕ
  pub ok : Bool
  pub output : List ℕ

pub record Verdict : Type 0 where
  pub ok : Bool
  pub results : List StepResult

pub data State : Type 0 where
  pick attempt verify advance : State

pub data OutcomeKind : Type 0 where
  idle done fail unset : OutcomeKind

pub data FailureReason : Type 0 where
  executor_error executor_incomplete gate_fail blocked_action no_reason : FailureReason

-- internal/loop/blocked_action.go
pub record BlockedAction : Type 0 where
  pub resource : String
  pub action : String
  pub reason : String

pub record Failure : Type 0 where
  pub reason : FailureReason
  pub err : Option Fault
  pub blocked : Option BlockedAction

pub record Outcome : Type 0 where
  pub kind : OutcomeKind
  pub task : Task
  pub branch : String
  pub verdict : Verdict
  pub failure : Failure
  pub trace : List State

pub data Error : Type 0 where
  nil_task_source nil_executor nil_gate blank_worktree_path : Error
  negative_max_attempts nil_status_writer nil_escalation_hook : Error
  empty_blocked_action negative_max_reevaluations nil_replan_func : Error
  pick_failed : Fault → Error
  unexpected_outcome : OutcomeKind → Error
  hook_failed : ℕ → Fault → Error
  hook_nil_executor : ℕ → Error
  mark_failed : String → Fault → Error
  replan_failed : ℕ → Fault → Error

-- Go's zero values.
abbrev pub zero_task : Task
zero_task = record { id = ""; repo = ""; spec = ""; prior_failure = [] }

abbrev pub zero_failure : Failure
zero_failure = record { reason = no_reason; err = none; blocked = none }

abbrev pub zero_outcome : Outcome
zero_outcome = record {
  kind = unset;
  task = zero_task;
  branch = "";
  verdict = record { ok = Bool.false; results = [] };
  failure = zero_failure;
  trace = [];
}

pub data Result {ℓ} (A : Type ℓ) : Type ℓ where
  returns : A → Result A
  raises : Error → Result A

-- An action of the program or of a seam on the state `W`.
abbrev pub Io : Type 0 → Type 0 → Type 0
Io W A = W → A × W

module _ {W : Type 0} where
  infixl 5 ◌>>=◌
  abbrev pub ◌>>=◌ : {A B : Type 0} → Io W A → (A → Io W B) → Io W B
  ◌>>=◌ m f w = let (a, w') = m w in f a w'

  abbrev pub pure : {A : Type 0} → A → Io W A
  pure a w = (a, w)

-- TaskSource.Next: no task, a task, or an error.
abbrev pub TaskSource : Type 0 → Type 0
TaskSource W = Io W (Fallible (Option Task))

abbrev pub Executor : Type 0 → Type 0
Executor W = Task → Io W (Fallible ExecutorResult)

-- Gate.Verify
abbrev pub Gate : Type 0 → Type 0
Gate W = String → Io W Verdict

pub record Loop (W : Type 0) : Type 0 where
  pub source : TaskSource W
  pub executor : Executor W
  pub gate : Gate W
  pub worktree_path : String

-- `none` is a nil interface.
unfoldable pub new_loop :
    {W : Type 0}
    → Option (TaskSource W)
    → Option (Executor W)
    → Option (Gate W)
    → String
    → Result (Loop W)
new_loop none executor gate path = raises nil_task_source
new_loop (some source) none gate path = raises nil_executor
new_loop (some source) (some executor) none path = raises nil_gate
new_loop (some source) (some executor) (some gate) path =
    if is_blank (codes path)
    then raises blank_worktree_path
    else returns
        (record { source = source; executor = executor; gate = gate; worktree_path = path })

-- The outcome that the verdict of the gate decides.
abbrev judged : Task → String → Verdict → Outcome
judged task branch verdict =
    if verdict.ok
    then record {
      kind = done;
      task = task;
      branch = branch;
      verdict = verdict;
      failure = zero_failure;
      trace = pick ∷ attempt ∷ verify ∷ advance ∷ [];
    }
    else record {
      kind = fail;
      task = task;
      branch = branch;
      verdict = verdict;
      failure = record zero_failure { reason = gate_fail };
      trace = pick ∷ attempt ∷ verify ∷ [];
    }

module _ {W : Type 0} where
  -- What follows Executor.Run.
  unfoldable pub after_attempt : Loop W → Task → Fallible ExecutorResult → Io W Outcome
  after_attempt l task (fault e) = pure (record zero_outcome {
    kind = fail;
    task = task;
    failure = record zero_failure { reason = executor_error; err = some e };
    trace = pick ∷ attempt ∷ [];
  })
  after_attempt l task (ok result) =
      if not result.ok
      then pure (record zero_outcome {
        kind = fail;
        task = task;
        branch = result.branch;
        failure = record zero_failure { reason = executor_incomplete };
        trace = pick ∷ attempt ∷ [];
      })
      else do verdict ← l.gate l.worktree_path; pure (judged task result.branch verdict)

  -- What follows TaskSource.Next. The outcome that Go returns beside an error has the trace only.
  unfoldable pub after_pick : Loop W → Fallible (Option Task) → Io W (Outcome × Option Error)
  unfolding after_attempt
  after_pick l (fault e) = pure (record zero_outcome { trace = pick ∷ [] }, some (pick_failed e))
  after_pick l (ok none) = pure (record zero_outcome { kind = idle; trace = pick ∷ [] }, none)
  after_pick l (ok (some task)) = do
    result ← l.executor task
    outcome ← after_attempt l task result
    pure (outcome, none)

  unfoldable pub run_once : Loop W → Io W (Outcome × Option Error)
  unfolding after_pick
  run_once l = do next ← l.source; after_pick l next
