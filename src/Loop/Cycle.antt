-- ===== src/Loop/Cycle.antt =====
-- What one cycle of the loop reports.
use agent_builder.Common.{◌≡◌, refl, ◌↔◌, true, Option, none, some, List, [], ◌∷◌, arith}
use agent_builder.Loop.{
  Task, ExecutorResult, Fallible, ok, fault, State, pick, attempt, verify, advance, OutcomeKind,
  done, fail, Loop, after_attempt, after_pick, run_once, gate_fail, FailureReason,
}

-- How far a cycle came, written independently of the code: a task was picked, the executor believes
-- that it completed the task, and the gate passed the worktree as the executor left it.
pub record IsVerified {W : Type 0} (l : Loop W) (w : W) : Type 0 where
  pub task : Task
  pub result : ExecutorResult
  pub picked : (l.source w).0 ≡ ok (some task)
  pub attempted : (l.executor task (l.source w).1).0 ≡ ok result
  pub believed : result.ok ≡ true
  pub passed : (l.gate l.worktree_path (l.executor task (l.source w).1).1).0.ok ≡ true

module _ {W : Type 0} (l : Loop W) (w : W) where
  attempt-IsVerified :
      (task : Task) (r : Fallible ExecutorResult)
      → (l.source w).0 ≡ ok (some task)
      → (l.executor task (l.source w).1).0 ≡ r
      → (after_attempt l task r (l.executor task (l.source w).1).1).0.kind ≡ done
      → IsVerified l w
  unfolding after_attempt
  attempt-IsVerified task (fault e) p a h = cc
  attempt-IsVerified task (ok r) p a h = record {
    task = task;
    result = r;
    picked = p;
    attempted = a;
    believed = ground arith;
    passed = ground arith;
  }

  pick-IsVerified :
      (next : Fallible (Option Task))
      → (l.source w).0 ≡ next
      → (after_pick l next (l.source w).1).0.0.kind ≡ done
      → IsVerified l w
  unfolding after_pick
  pick-IsVerified (fault e) p h = cc
  pick-IsVerified (ok none) p h = cc
  pick-IsVerified (ok (some task)) p h =
      attempt-IsVerified task (l.executor task (l.source w).1).0 p refl h

  verified_done : IsVerified l w → (run_once l w).0.0.kind ≡ done
  unfolding run_once
  verified_done v = ground arith

  -- A cycle is done exactly if the gate passed what a completed attempt left.
  pub done_iff_IsVerified : ((run_once l w).0.0.kind ≡ done) ↔ IsVerified l w
  unfolding run_once
  done_iff_IsVerified = (λ h. pick-IsVerified (l.source w).0 refl h, λ v. verified_done v)

-- What the trace should be for an outcome of each kind.
unfoldable pub expected_trace : OutcomeKind → FailureReason → List State
expected_trace done _ = pick ∷ attempt ∷ verify ∷ advance ∷ []
expected_trace fail gate_fail = pick ∷ attempt ∷ verify ∷ []
expected_trace fail _ = pick ∷ attempt ∷ []
expected_trace _ _ = pick ∷ []

module _ {W : Type 0} (l : Loop W) (w : W) where
  -- The trace of every cycle, one that ends in an error included, is told by the kind of its outcome
  -- and the reason of its failure: `advance` stands in it only if the cycle is done, and `verify`
  -- only if the gate has run.
  pub trace-run_once :
      let o = (run_once l w).0.0 in o.trace ≡ expected_trace o.kind o.failure.reason
  unfolding run_once expected_trace
  trace-run_once = ground arith
