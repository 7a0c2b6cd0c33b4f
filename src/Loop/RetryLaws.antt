-- ===== src/Loop/RetryLaws.antt =====
-- The bound on attempts, and what a retried task ends as.
use agent_builder.Common.{
  ◌≡◌, refl, inl, inr, Option, none, some, List, arith, ℕ, zero, suc, ◌+◌, ◌≤◌, String, Bool-cases,
  ◌==◌, sym, eq_of_==, subst,
}
use agent_builder.Common.Int.{ℤ, pos, pos_part, int_eq}
use agent_builder.Common.Text.{is_blank, codes}
use agent_builder.Loop.{
  zero_outcome, Task, Fallible, ok, fault, Executor, Outcome, OutcomeKind, idle, done, fail, unset,
  Loop, run_once, new_loop, Result, returns, raises, Io, Error,
}
use agent_builder.Loop.Retry.{
  RetryingLoop, EscalationRequest, RetryOutcome, single_task_source, fed_back, after_run, round,
  after_hook, after_cycle, attempts_from, mark_needs_human, with_task, retry_once, needs_human,
}

module _ {W : Type 0} (count : W → ℕ) where
  -- `count` goes up by one with each run of the executor.
  abbrev pub IsMetered : Executor W → Type 0
  IsMetered executor = (t : Task) (w : W) → count (executor t w).1 ≡ count w + 1

  -- The other seams leave `count` alone, and after a metered executor the hook
  -- answers with a metered one.
  pub record Metered (l : RetryingLoop W) : Type 0 where
    pub source : (w : W) → count (l.source w).1 ≡ count w
    pub gate : (path : String) (w : W) → count (l.gate path w).1 ≡ count w
    pub writer : (id : String) (w : W) → count (l.status_writer id needs_human w).1 ≡ count w
    pub hook : (r : EscalationRequest W) (w : W) → count (l.escalate r w).1 ≡ count w
    pub next :
        (r : EscalationRequest W) (w : W) (executor : Executor W)
        → IsMetered r.current_executor
        → (l.escalate r w).0 ≡ ok (some executor)
        → IsMetered executor

  module _ (l : RetryingLoop W) (m : Metered l) where
    cycle_of : Task → Executor W → Loop W
    cycle_of task executor = record {
      source = single_task_source task;
      executor = executor;
      gate = l.gate;
      worktree_path = l.worktree_path;
    }

    cycle-count :
        (task : Task) (executor : Executor W) (w : W)
        → IsMetered executor
        → count (run_once (cycle_of task executor) w).1 ≡ count w + 1
    unfolding run_once cycle_of
    cycle-count task executor w e =
        ground (arith, e task w, m.gate l.worktree_path (executor task w).1)

    -- Whatever cycle is made, it runs the executor once.
    new-cycle-count :
        (task : Task) (executor : Executor W) (cycle : Loop W) (w : W)
        → IsMetered executor
        → new_loop (some (single_task_source task)) (some executor) (some l.gate) l.worktree_path
          ≡ returns cycle
        → count (run_once cycle w).1 ≡ count w + 1
    unfolding new_loop cycle_of
    new-cycle-count task executor cycle w metered h =
        elim (Bool-cases (is_blank (codes l.worktree_path))) [
          | inl blank ↦ cc (rw blank at h)
          | inr named ↦
              let same : cycle_of task executor ≡ cycle = ground arith in
              subst (λ c. count (run_once c w).1 ≡ count w + 1) same
                (cycle-count task executor w metered)
        ]

    -- From `w`, about to start attempt number `attempt` of at most `left` more, to `w'`.
    abbrev Counts : W → ℕ → ℕ → Result RetryOutcome × W → Type 0
    Counts w attempt left (r, w') =
        (count w' ≤ count w + left)
        × ((o : RetryOutcome)
            → r ≡ returns o
            → count w' + attempt ≡ count w + pos_part o.attempts + 1)

    -- From a state with as many runs, and with room for more attempts.
    Counts-widen :
        (v w : W) (attempt fewer left : ℕ) (x : Result RetryOutcome × W)
        → count v ≡ count w
        → fewer ≤ left
        → Counts v attempt fewer x
        → Counts w attempt left x
    Counts-widen v w attempt fewer left (r, w') e h c = (omega arith, λ o p. omega (arith, c.1 o p))

    mark-Counts :
        (task : Task) (last : Outcome) (w : W) (attempt : ℕ) (attempts : ℤ)
        → attempts ≡ pos attempt
        → Counts w (suc attempt) 0 (mark_needs_human l task attempts last w)
    unfolding mark_needs_human
    mark-Counts task last w attempt attempts e =
        (ground (arith, m.writer task.id w), λ o p. ground (arith, m.writer task.id w))

    module _ (quote : String → List ℕ) where
      module _ (again : Task → Executor W → Outcome → Io W (Result RetryOutcome)) (attempt left : ℕ)
          (ih : (t : Task) (e : Executor W) (o : Outcome) (v : W)
            → IsMetered e
            → Counts v (suc attempt) left (again t e o v)) where
        hook-Counts :
            (task : Task) (outcome : Outcome) (n : ℕ) (next : Fallible (Option (Executor W)))
            (w : W)
            → ((e : Executor W) → next ≡ ok (some e) → IsMetered e)
            → Counts w (suc attempt) left (after_hook again task n outcome next w)
        unfolding after_hook
        hook-Counts task outcome n (fault e) w metered = (omega arith, λ o p. cc)
        hook-Counts task outcome n (ok none) w metered = (omega arith, λ o p. cc)
        hook-Counts task outcome n (ok (some e)) w metered = ih task e outcome w (metered e refl)

        after-Counts :
            (task : Task) (executor : Executor W) (outcome : Outcome) (kind : OutcomeKind) (w : W)
            → l.max_attempts ≡ pos (attempt + left)
            → IsMetered executor
            → Counts w
                (suc attempt)
                left
                (after_cycle quote again l task executor attempt outcome kind w)
        unfolding after_cycle
        after-Counts task executor outcome done w e metered = (omega arith, λ o p. ground arith)
        after-Counts task executor outcome fail w e metered =
            elim (Bool-cases (pos attempt == l.max_attempts)) [
              | inl last ↦ rw last (
                  Counts-widen w w (suc attempt) 0 left _ refl (omega arith)
                    (mark-Counts task outcome w attempt l.max_attempts (sym (eq_of_== _ _ last))))
              | inr more ↦ rw more (
                  let request : EscalationRequest W = record {
                    task = fed_back quote task outcome;
                    attempt = attempt;
                    outcome = outcome;
                    current_executor = executor;
                  } in
                  Counts-widen (l.escalate request w).1 w (suc attempt) left left _
                    (m.hook request w) (omega arith)
                    (hook-Counts request.task outcome attempt (l.escalate request w).0
                      (l.escalate request w).1 (λ e' p. m.next request w e' metered p)))
            ]
        after-Counts task executor outcome idle w e metered = (omega arith, λ o p. cc)
        after-Counts task executor outcome unset w e metered = (omega arith, λ o p. cc)

        run-Counts :
            (task : Task) (executor : Executor W) (ran : Outcome × Option Error) (w : W)
            → l.max_attempts ≡ pos (attempt + left)
            → IsMetered executor
            → Counts w (suc attempt) left (after_run quote again l task executor attempt ran w)
        unfolding after_run
        run-Counts task executor (outcome, some x) w e metered = (omega arith, λ o p. cc)
        run-Counts task executor (outcome, none) w e metered =
            after-Counts task executor outcome outcome.kind w e metered

        round-Counts :
            (task : Task) (executor : Executor W) (made : Result (Loop W)) (w : W)
            → ((cycle : Loop W) → made ≡ returns cycle → count (run_once cycle w).1 ≡ count w + 1)
            → l.max_attempts ≡ pos (attempt + left)
            → IsMetered executor
            → Counts w attempt (suc left) (round quote again l task executor attempt made w)
        unfolding round
        round-Counts task executor (raises x) w once e metered = (omega arith, λ o p. cc)
        round-Counts task executor (returns cycle) w once e metered =
            let (ran, v) = run_once cycle w in
            let c : Counts v (suc attempt) left
                (after_run quote again l task executor attempt ran v) =
              run-Counts task executor ran v e metered in
            (omega (arith, once cycle refl), λ o p. omega (arith, once cycle refl, c.1 o p))

      attempts-Counts :
          (left attempt : ℕ) (task : Task) (executor : Executor W) (last : Outcome) (w : W)
          → l.max_attempts ≡ pos (attempt + left)
          → IsMetered executor
          → Counts w
              (suc attempt)
              left
              (attempts_from quote left (suc attempt) l task executor last w)
      unfolding attempts_from
      attempts-Counts zero attempt task executor last w e metered =
          mark-Counts task last w attempt l.max_attempts (ground arith)
      attempts-Counts (suc left) attempt task executor last w e metered =
          round-Counts (attempts_from quote left (suc (suc attempt)) l) (suc attempt) left
            (λ t x o v mx. attempts-Counts left (suc attempt) t x o v (ground arith) mx) task
            executor
            (new_loop (some (single_task_source task)) (some executor) (some l.gate)
              l.worktree_path)
            w (λ cycle made. new-cycle-count task executor cycle w metered made) (ground arith)
            metered

      retry-Counts :
          (n : ℕ) (next : Fallible (Option Task)) (w : W)
          → l.max_attempts ≡ pos n
          → IsMetered l.executor
          → Counts w 1 n (with_task quote l next w)
      retry-Counts n (fault e) w p metered = (omega arith, λ o q. cc)
      retry-Counts n (ok none) w p metered = (omega arith, λ o q. ground arith)
      retry-Counts n (ok (some task)) w p metered = elim (Bool-cases (l.max_attempts == pos 0)) [
        | inl never ↦ rw never (
            Counts-widen w w 1 0 n _ refl (omega arith)
              (mark-Counts task zero_outcome w 0 (pos 0) refl))
        | inr more ↦ rw more (
            Counts-widen w w 1 (pos_part l.max_attempts) n _ refl (ground arith) (
              attempts-Counts (pos_part l.max_attempts) 0 task l.executor zero_outcome w
                (ground arith) metered))
      ]

-- A call of RunOnce with the bound `n` runs executors at most `n` times, and where it returns an
-- outcome, exactly as often as the outcome reports. This holds for every measure `count` of the
-- runs: each executor raises it by one, and the source, the gate, the writer and the hook leave it.
pub retry_attempts :
    {W : Type 0} (count : W → ℕ) (quote : String → List ℕ) (l : RetryingLoop W) (n : ℕ) (w : W)
    → Metered count l
    → IsMetered count l.executor
    → l.max_attempts ≡ pos n
    → (count (retry_once quote l w).1 ≤ count w + n)
      × ((o : RetryOutcome)
          → (retry_once quote l w).0 ≡ returns o
          → count (retry_once quote l w).1 ≡ count w + pos_part o.attempts)
unfolding retry_once
retry_attempts count quote l n w m metered e =
    let (next, v) = l.source w in
    let c : (count (with_task quote l next v).1 ≤ count v + n)
        × ((o : RetryOutcome)
            → (with_task quote l next v).0 ≡ returns o
            → count (with_task quote l next v).1 + 1 ≡ count v + pos_part o.attempts + 1) =
      retry-Counts count l m quote n next v e metered in
    (omega (arith, m.source w), λ o p. omega (arith, m.source w, c.1 o p))
