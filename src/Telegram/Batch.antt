-- ===== src/Telegram/Batch.antt =====
-- One batch of updates: `processBatch` and `processPlaintext` of
-- internal/channel/telegram/adapter.go. The armor guard, encoding/json and the decoding of UTF-8 are
-- fields of `Adapter`; each update brings the clock and the failing call of Persist that it meets.
use agent_builder.Common.{
  Bool, true, false, Option, none, some, List, [], ◌∷◌, ◌++◌, ℕ, String, ltb, ◌==◌, ◌&&◌, length,
  string_eq, if◌then◌else◌,
}
use agent_builder.Common.Int.{ℤ, pos, ◌+ℤ◌}
use agent_builder.Common.Text.{codes, is_empty, utf8}
use agent_builder.Envelope.Replay.{Error}
use agent_builder.Envelope.Open.{
  Envelope, Crypto, Failure, unknown_key, bad_signature, not_fresh, decryption_failed, malformed,
  Opened, plaintext, failed, verify_and_open,
}
use agent_builder.Envelope.Replay.{ReplayCache}
use agent_builder.Telegram.Authz.Store.{Stage}
use agent_builder.Telegram.Authz.Decide.{
  Mode, Action, Decision, AuditReason, decide, decide_pairing,
}
use agent_builder.Telegram.Message.{Message, Update, Derived, sender_id}
use agent_builder.Telegram.Derive.{derive_message}
use agent_builder.Telegram.Pairing.{
  Owner, World, emit_audit_event, handle_pairing_pending, handle_pairing_approve,
  handle_pairing_deny, handle_pairing_malformed,
}
pub mod Laws
pub mod Delivered
mod Tests

-- What NewContentCandidate and DecideContent answer; `blocked` stands for every outcome but allow.
pub data GuardAnswer : Type 0 where
  candidate_invalid : GuardAnswer
  armor_error : GuardAnswer
  allowed : GuardAnswer
  blocked : List ℕ → GuardAnswer

pub record Adapter : Type 0 where
  pub mode : Mode
  pub owner : Owner
  pub max_message_bytes : ℕ
  pub guard : ℤ → List ℕ → GuardAnswer
  pub parse_envelope : List ℕ → Option Envelope
  pub parse_error : List ℕ → List ℕ
  pub decode_text : List ℕ → List ℕ
  pub crypto : Crypto
  pub signing_key : List ℕ
  pub private_key : List ℕ
  pub sender_key : List ℕ

-- What happens around one update.
pub record Arrival : Type 0 where
  pub update : Update
  pub now : ℤ
  pub failing : Option Stage

-- A handled update: the message that it yields, if any, and the world behind it.
abbrev pub Handled : Type 0
Handled = Option Derived × World

unfoldable pub reject : Adapter → List ℕ → World → Handled
unfolding emit_audit_event
reject a reason w = (none, emit_audit_event a.owner reason w)

abbrev kept : Message → List ℕ → World → Handled
kept m text w =
    let derived = derive_message m text w.goals in (some derived.0, record w { goals = derived.1 })

unfoldable pub on_guard : Adapter → GuardAnswer → Message → List ℕ → World → Handled
unfolding reject derive_message
on_guard a candidate_invalid m text w = reject a (codes "candidate_invalid") w
on_guard a armor_error m text w = reject a (codes "armor_error") w
on_guard a allowed m text w = kept m text w
on_guard a (blocked reason) m text w = reject a (codes "armor_blocked: " ++ reason) w

unfoldable pub process_plaintext : Adapter → ℤ → Message → List ℕ → World → Handled
unfolding on_guard
process_plaintext a update_id m text w = on_guard a (a.guard update_id text) m text w

unfoldable pub too_long : Adapter → Message → Bool
unfolding utf8
too_long a m = ltb a.max_message_bytes (length (utf8 m.text))

-- The accepting event follows the message only.
unfoldable pub audit_accept : Adapter → List ℕ → Handled → Handled
unfolding emit_audit_event
audit_accept a reason (none, w) = (none, w)
audit_accept a reason (some derived, w) = (some derived, emit_audit_event a.owner reason w)

unfoldable pub accept_plaintext : Adapter → List ℕ → ℤ → Message → World → Handled
unfolding reject too_long process_plaintext audit_accept
accept_plaintext a reason update_id m w =
    if too_long a m
    then reject a (codes "text_too_long") w
    else audit_accept a reason (process_plaintext a update_id m m.text w)

unfoldable pub failure_reason : Failure → List ℕ
failure_reason unknown_key = codes "unknown_key"
failure_reason bad_signature = codes "unknown_key"
failure_reason (not_fresh _) = codes "replay_detected"
failure_reason decryption_failed = codes "decryption_failed"
failure_reason malformed = codes "envelope_rejected"

unfoldable pub on_opened : Adapter → ℤ → Message → Envelope → Opened × ReplayCache → World → Handled
unfolding reject process_plaintext failure_reason string_eq
on_opened a update_id m env (failed e, replay) w =
    reject a (failure_reason e) (record w { replay = replay })
on_opened a update_id m env (plaintext bytes, replay) w =
    if (env.from == "operator") && (env.to == "orchestrator")
    then process_plaintext a update_id m (a.decode_text bytes) (record w { replay = replay })
    else reject a (codes "role_mismatch") (record w { replay = replay })

unfoldable pub on_envelope : Adapter → ℤ → ℤ → Message → Option Envelope → World → Handled
unfolding reject verify_and_open on_opened
on_envelope a now update_id m none w =
    reject a (codes "envelope_parse_failed: " ++ a.parse_error m.text) w
on_envelope a now update_id m (some env) w =
    on_opened a update_id m env
      (verify_and_open a.crypto env a.signing_key w.replay now a.private_key a.sender_key) w

unfoldable pub route_envelope : Adapter → ℤ → ℤ → Message → World → Handled
unfolding reject too_long on_envelope
route_envelope a now update_id m w =
    if too_long a m
    then reject a (codes "text_too_long") w
    else on_envelope a now update_id m (a.parse_envelope m.text) w

unfoldable pub decision_in : Mode → Adapter → Message → World → Decision
unfolding decide decide_pairing sender_id
decision_in Mode.pairing a m w = decide_pairing (sender_id m) a.owner.owner_id m.text w.store
decision_in Mode.envelope a m w = decide Mode.envelope (sender_id m) w.store
decision_in Mode.allowlist a m w = decide Mode.allowlist (sender_id m) w.store
decision_in Mode.open_to_all a m w = decide Mode.open_to_all (sender_id m) w.store
decision_in Mode.disabled a m w = decide Mode.disabled (sender_id m) w.store

-- string(decision.Reason)
unfoldable pub reason_text : AuditReason → List ℕ
reason_text AuditReason.no_reason = []
reason_text AuditReason.channel_disabled = codes "channel_disabled"
reason_text AuditReason.sender_not_approved = codes "sender_not_approved"
reason_text AuditReason.plaintext_accepted = codes "plaintext_accepted"
reason_text AuditReason.pairing_request = codes "pairing_request"
reason_text AuditReason.pairing_approved = codes "pairing_approved"
reason_text AuditReason.pairing_denied = codes "pairing_denied"
reason_text AuditReason.pairing_bad_grammar = codes "pairing_malformed"

-- The switch on the action of the decision `d`.
unfoldable pub act : Action → Adapter → Arrival → Message → Decision → World → Handled
unfolding reject reason_text accept_plaintext route_envelope handle_pairing_pending
    handle_pairing_approve handle_pairing_deny handle_pairing_malformed
act Action.reject_disabled a u m d w = reject a (reason_text d.reason) w
act Action.reject_unapproved a u m d w = reject a (reason_text d.reason) w
act Action.pairing_pending a u m d w = (none, handle_pairing_pending a.owner m w)
act Action.pairing_approve a u m d w =
    (none, handle_pairing_approve a.owner u.failing d.target_id w)
act Action.pairing_deny a u m d w = (none, handle_pairing_deny a.owner d.target_id w)
act Action.pairing_malformed a u m d w =
    (none, handle_pairing_malformed a.owner (reason_text d.reason) w)
act Action.accept_plaintext a u m d w =
    accept_plaintext a (reason_text d.reason) u.update.update_id m w
act Action.route_envelope a u m d w = route_envelope a u.now u.update.update_id m w

unfoldable pub process_message : Adapter → Arrival → Option Message → World → Handled
unfolding decision_in act
process_message a u none w = (none, w)
process_message a u (some m) w =
    let d = decision_in a.mode a m w in
    if is_empty m.text then (none, w) else act d.action a u m d w

unfoldable pub process_update : Adapter → Arrival → World → Handled
unfolding process_message ◌+ℤ◌
process_update a u w =
    process_message a u u.update.message (record w { offset = u.update.update_id +ℤ pos 1 })

-- The first update that yields a message ends the batch.
abbrev unless_delivered : Handled → (World → Handled) → Handled
unless_delivered (some derived, w) rest = (some derived, w)
unless_delivered (none, w) rest = rest w

unfoldable pub process_batch : Adapter → List Arrival → World → Handled
unfolding process_update
process_batch a [] w = (none, w)
process_batch a (u ∷ us) w = unless_delivered (process_update a u w) (process_batch a us)
