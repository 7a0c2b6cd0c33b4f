-- ===== src/Loop/Tests.antt =====
-- A loop whose seams count the runs of the executor, and the theorems at its inputs.
use agent_builder.Common.{
  ◌≡◌, refl, true, some, List, [], ◌∷◌, ℕ, ◌+◌, ◌≤◌, String, ltb, string_eq, subst,
}
use agent_builder.Common.Int.{ℤ, pos, int_eq}
use agent_builder.Common.Text.{codes, is_blank}
use agent_builder.Loop.{
  Task, ok, Executor, Verdict, Loop, run_once, zero_task, Result, returns, BlockedAction,
}
use agent_builder.Loop.Cycle.{IsVerified, done_iff_IsVerified}
use agent_builder.Loop.Retry.{RetryingLoop, RetryOutcome, retry_once, escalated, zero_retry_outcome}
use agent_builder.Loop.RetryLaws.{IsMetered, retry_attempts}
use agent_builder.Loop.Reevaluate.{
  ReplanFunc, ReevaluationPolicy, resolved_outcome, reevaluate_blocked,
}
use agent_builder.Loop.Reevaluate.NoSelfGrant.{Ends, reevaluate-Ends}
use agent_builder.Loop.Attempts.{Settled}
use agent_builder.Loop.Settles.{retry_settles}

-- The state counts the runs; the work is done right at the second.
abbrev task : Task
task = record zero_task { id = "007" }

abbrev executor : Executor ℕ
executor t w = (ok (record { branch = "b"; ok = true }), w + 1)

abbrev verdict_at : ℕ → Verdict
verdict_at w = record { ok = ltb 1 w; results = [] }

abbrev cycle : Loop ℕ
cycle = record {
  source = λ w. (ok (some task), w);
  executor = executor;
  gate = λ path w. (verdict_at w, w);
  worktree_path = "/repo";
}

abbrev quote : String → List ℕ
quote s = codes s

abbrev retrying : RetryingLoop ℕ
retrying = record {
  source = λ w. (ok (some task), w);
  executor = executor;
  gate = λ path w. (verdict_at w, w);
  worktree_path = "/repo";
  status_writer = λ id status w. (ok (record { path = "t.md"; changed = true }), w);
  max_attempts = pos 3;
  escalate = λ r w. (ok (some r.current_executor), w);
}

done_iff_IsVerified_example : IsVerified cycle 1
unfolding run_once
done_iff_IsVerified_example = (done_iff_IsVerified cycle 1).0 refl

attempts_used : Result RetryOutcome → ℤ
attempts_used (returns o) = o.attempts
attempts_used r = pos 99

retry_twice : attempts_used (retry_once quote retrying 0).0 ≡ pos 2
unfolding attempts_used retry_once int_eq is_blank
retry_twice = refl

answer : {a b : Executor ℕ} → ok (some a) ≡ ok (some b) → a ≡ b
answer p = cc

retry_attempts_example : (retry_once quote retrying 0).1 ≤ 3
retry_attempts_example =
    (retry_attempts (λ w. w) quote retrying 3 0
      (record {
        source = λ w. refl;
        gate = λ path w. refl;
        writer = λ id w. refl;
        hook = λ r w. refl;
        next = λ r w e metered p. subst (IsMetered (λ w. w)) (answer p) metered;
      })
      (λ t w. refl) refl).0

abbrev second_outcome : Result RetryOutcome → RetryOutcome
second_outcome (returns o) = o
second_outcome r = zero_retry_outcome escalated

retry_settles_example :
    Settled quote retrying 0
      (second_outcome (retry_once quote retrying 0).0)
      (retry_once quote retrying 0).1
unfolding retry_once int_eq is_blank
retry_settles_example = retry_settles quote retrying 0 _ refl

-- Two replans: the first leaves the action blocked, the second does not.
abbrev replan : ReplanFunc ℕ
replan b w = (ok (record { allowed_resources = "docs" ∷ []; still_blocked = ltb w 1 }), w + 1)

abbrev policy : ReevaluationPolicy ℕ
policy = record { max_reevaluations = pos 2; replan = some replan }

abbrev denial : BlockedAction
denial = record { resource = "coding-agent"; action = "spawn-worker"; reason = "no" }

reevaluate-Ends_example :
    Ends replan denial 2 1 [] 0
      (pos 2)
      retrying.status_writer
      "007"
      (resolved_outcome 2 ("docs" ∷ []))
      (reevaluate_blocked policy "007" denial (some retrying.status_writer) 0).1
unfolding reevaluate_blocked string_eq
reevaluate-Ends_example =
    (reevaluate-Ends policy replan 2 "007" denial retrying.status_writer 0
      (resolved_outcome 2 ("docs" ∷ [])) refl refl refl).1
