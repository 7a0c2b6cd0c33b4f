-- ===== src/Loop/Format.antt =====
-- internal/loop/format_failure.go: the text of a failed attempt that the next attempt is given.
-- `quote` stands for the verb %q.
use agent_builder.Common.{Bool, Option, none, some, List, [], ◌∷◌, ◌++◌, ℕ, String}
use agent_builder.Common.{leb, ltb, length, if◌then◌else◌, ◌&&◌}
use agent_builder.Common.Text.{codes, utf8}
use agent_builder.Loop.{
  Outcome, BlockedAction, StepResult, Fault, executor_error, executor_incomplete, gate_fail,
  blocked_action, no_reason, FailureReason,
}
use mathlib.Core.List.{reverse}

abbrev pub max_failure_output_bytes : ℕ
max_failure_output_bytes = 2000

abbrev pub take : ℕ → List ℕ → List ℕ
take ℕ.zero s = []
take (ℕ.suc n) [] = []
take (ℕ.suc n) (b ∷ s) = b ∷ take n s

-- (b & 0xC0) == 0x80: a byte 10xxxxxx.
unfoldable pub is_continuation : ℕ → Bool
is_continuation b = leb 0x80 b && ltb b 0xc0

-- The loop that drops continuation bytes from the back; the list is reversed.
unfoldable pub drop_continuations : List ℕ → List ℕ
drop_continuations [] = []
drop_continuations (b ∷ s) =
    let rest = drop_continuations s in if is_continuation b then rest else b ∷ s

unfoldable pub truncate_at_rune : List ℕ → ℕ → List ℕ
unfolding drop_continuations is_continuation
truncate_at_rune s cap =
    if leb (length s) cap then s else reverse (drop_continuations (reverse (take cap s)))

-- The first failing step of the verdict.
unfoldable pub first_failing : List StepResult → Option StepResult
first_failing [] = none
first_failing (r ∷ rs) = let rest = first_failing rs in if r.ok then rest else some r

abbrev pub step_report : Option StepResult → List ℕ
step_report none =
    codes
      "Your previous attempt failed the verification gate.\nFix these issues before producing the branch."
step_report (some r) =
    codes "Your previous attempt failed the verification gate.\n\nFailed step: "
    ++ (utf8 r.name
        ++ (codes "\nOutput:\n"
            ++ (truncate_at_rune r.output max_failure_output_bytes
                ++ codes "\n\nFix these issues before producing the branch.")))

unfoldable pub format_gate_failure : Outcome → List ℕ
unfolding first_failing truncate_at_rune utf8
format_gate_failure outcome = step_report (first_failing outcome.verdict.results)

abbrev pub error_text : Option Fault → List ℕ
error_text none = codes "unknown executor error"
error_text (some e) = e.message

unfoldable pub format_executor_error : Outcome → List ℕ
format_executor_error outcome =
    codes "Your previous attempt failed: the executor encountered an error.\nError: "
    ++ (error_text outcome.failure.err ++ codes "\nFix any issues and retry.")

abbrev pub format_executor_incomplete : List ℕ
format_executor_incomplete =
    codes
      "Your previous attempt did not complete: the executor did not produce a branch.\nEnsure your implementation writes the produced branch name to the designated output file."

module _ (quote : String → List ℕ) where
  -- BlockedAction.String
  unfoldable pub blocked_text : BlockedAction → List ℕ
  blocked_text b =
      codes "action "
      ++ (quote b.action
          ++ (codes " on resource "
              ++ (quote b.resource ++ (codes " denied: " ++ utf8 (codes b.reason)))))

  abbrev pub blocked_report : Option BlockedAction → List ℕ
  blocked_report none =
      codes
        "Your previous attempt was blocked: a necessary action was denied by policy.\nReplan within what is permitted, or this will escalate to a human."
  blocked_report (some b) =
      codes "Your previous attempt was blocked: a necessary action was denied by policy.\n\n"
      ++ (blocked_text b
          ++ utf8 (
              codes
                "\n\nReplan within what is permitted; the denied action is not yours to grant — only a replan or an independent human grant can change authorization."))

  abbrev pub by_reason : FailureReason → Outcome → List ℕ
  by_reason gate_fail outcome = format_gate_failure outcome
  by_reason executor_error outcome = format_executor_error outcome
  by_reason executor_incomplete outcome = format_executor_incomplete
  by_reason blocked_action outcome = blocked_report outcome.failure.blocked
  by_reason no_reason outcome = codes "Unknown failure reason"

  unfoldable pub format_failure : Outcome → List ℕ
  unfolding format_gate_failure format_executor_error blocked_text
  format_failure outcome = by_reason outcome.failure.reason outcome
