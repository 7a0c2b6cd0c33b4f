-- ===== src/Loop/Reevaluate.antt =====
-- internal/loop/blocked_action.go: a denied action is replanned around a bounded number of times,
-- and then handed to a human.
pub mod NoSelfGrant
use agent_builder.Common.{Bool, true, false, Option, none, some, ℕ, zero, suc, String, List, []}
use agent_builder.Common.{◌==◌, ◌&&◌, if◌then◌else◌, string_eq}
use agent_builder.Common.Int.{ℤ, pos, pos_part, lt_int}
use agent_builder.Loop.{
  Io, ◌>>=◌, pure, Fallible, ok, fault, BlockedAction, Failure, blocked_action, Error, mark_failed,
  replan_failed, nil_status_writer, nil_replan_func, empty_blocked_action,
  negative_max_reevaluations, Result, returns, raises, zero_failure,
}
use agent_builder.Loop.Retry.{WritableStatus, needs_human, StatusWriteResult, StatusWriter}

unfoldable pub is_zero : BlockedAction → Bool
is_zero b = b.resource == "" && (b.action == "" && b.reason == "")

unfoldable pub classify_blocked_action : String → String → String → Result Failure
unfolding is_zero
classify_blocked_action resource action reason =
    let blocked : BlockedAction = record {
      resource = resource;
      action = action;
      reason = reason;
    } in
    if is_zero blocked
    then raises empty_blocked_action
    else returns (record zero_failure { reason = blocked_action; blocked = some blocked })

pub record Reevaluation : Type 0 where
  pub allowed_resources : List String
  pub still_blocked : Bool

abbrev pub ReplanFunc : Type 0 → Type 0
ReplanFunc W = BlockedAction → Io W (Fallible Reevaluation)

pub record ReevaluationPolicy (W : Type 0) : Type 0 where
  pub max_reevaluations : ℤ
  pub replan : Option (ReplanFunc W)

unfoldable pub new_reevaluation_policy :
    {W : Type 0} → ℤ → Option (ReplanFunc W) → Result (ReevaluationPolicy W)
new_reevaluation_policy max replan =
    if lt_int max (pos 0) then raises negative_max_reevaluations else elim replan [
      | none ↦ raises nil_replan_func
      | some f ↦ returns (record { max_reevaluations = max; replan = some f })
    ]

pub data ReevaluationOutcomeKind : Type 0 where
  resolved escalated : ReevaluationOutcomeKind

pub record Escalation : Type 0 where
  pub status : WritableStatus
  pub blocked : BlockedAction
  pub reevaluations : ℤ

pub record ReevaluationOutcome : Type 0 where
  pub kind : ReevaluationOutcomeKind
  pub reevaluations : ℤ
  pub allowed_resources : List String
  pub escalation : Option Escalation
  pub status_write : Option StatusWriteResult

abbrev pub resolved_outcome : ℕ → List String → ReevaluationOutcome
resolved_outcome reeval allowed = record {
  kind = resolved;
  reevaluations = pos reeval;
  allowed_resources = allowed;
  escalation = none;
  status_write = none;
}

abbrev pub escalated_outcome :
    String
    → BlockedAction
    → ℤ
    → List String
    → Fallible StatusWriteResult
    → Result ReevaluationOutcome
escalated_outcome task_id blocked max allowed (fault e) = raises (mark_failed task_id e)
escalated_outcome task_id blocked max allowed (ok written) = returns (record {
  kind = escalated;
  reevaluations = max;
  allowed_resources = allowed;
  escalation = some (record { status = needs_human; blocked = blocked; reevaluations = max });
  status_write = some written;
})

module _ {W : Type 0} where
  unfoldable pub escalate :
      StatusWriter W → String → BlockedAction → ℤ → List String → Io W (Result ReevaluationOutcome)
  escalate writer task_id blocked max allowed = do
    written ← writer task_id needs_human
    pure (escalated_outcome task_id blocked max allowed written)

  -- The body of the for loop after Replan. `again` is the next round, with the set applied last.
  unfoldable pub after_replan :
      (List String → Io W (Result ReevaluationOutcome))
      → ℕ
      → Fallible Reevaluation
      → Io W (Result ReevaluationOutcome)
  after_replan again reeval (fault e) = pure (raises (replan_failed reeval e))
  after_replan again reeval (ok r) =
      if r.still_blocked
      then again r.allowed_resources
      else pure (returns (resolved_outcome reeval r.allowed_resources))

  -- The for loop, with the rounds that are left, and the escalation behind it.
  unfoldable pub replans_from :
      ℕ
      → ℕ
      → ReplanFunc W
      → ℤ
      → StatusWriter W
      → String
      → BlockedAction
      → List String
      → Io W (Result ReevaluationOutcome)
  unfolding after_replan escalate
  replans_from zero reeval replan max writer task_id blocked last =
      escalate writer task_id blocked max last
  replans_from (suc left) reeval replan max writer task_id blocked last = do
    r ← replan blocked
    after_replan (replans_from left (suc reeval) replan max writer task_id blocked) reeval r

  -- The guards of ReevaluateBlocked, in order.
  unfoldable pub reevaluate_blocked :
      ReevaluationPolicy W
      → String
      → BlockedAction
      → Option (StatusWriter W)
      → Io W (Result ReevaluationOutcome)
  unfolding replans_from is_zero
  reevaluate_blocked p task_id blocked none = pure (raises nil_status_writer)
  reevaluate_blocked p task_id blocked (some writer) =
      if is_zero blocked then pure (raises empty_blocked_action) else elim p.replan [
        | none ↦ pure (raises nil_replan_func)
        | some replan ↦
            replans_from (pos_part p.max_reevaluations) 1 replan p.max_reevaluations writer task_id
              blocked []
      ]
