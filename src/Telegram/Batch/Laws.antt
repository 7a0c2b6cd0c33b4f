-- ===== src/Telegram/Batch/Laws.antt =====
-- What has happened before an update becomes a message.
use agent_builder.Common.{
  none_not_some, ◌≡◌, refl, sym, ◌∙◌, Bool, true, false, Option, some, none, List, ℕ, arith, inl,
  inr, Bool-cases, ◌&&◌, ◌==◌, string_eq, eq_of_==,
}
use agent_builder.Common.Int.{ℤ}
use agent_builder.Envelope.Replay.{ReplayCache}
use agent_builder.Envelope.Open.{Envelope, Opened, plaintext, failed, verify_and_open}
use agent_builder.Telegram.Message.{Message, Derived}
use agent_builder.Telegram.Pairing.{World}
use agent_builder.Telegram.Batch.{
  GuardAnswer, allowed, candidate_invalid, armor_error, blocked, Adapter, Handled, reject, on_guard,
  process_plaintext, too_long, audit_accept, accept_plaintext, on_opened, on_envelope,
  route_envelope,
}

reject_lem : (a : Adapter) (reason : List ℕ) (w : World) → (reject a reason w).0 ≡ none
unfolding reject
reject_lem a reason w = refl

on_guard-allowed :
    (a : Adapter) (answer : GuardAnswer) (m : Message) (text : List ℕ) (w : World) (d : Derived)
    → (on_guard a answer m text w).0 ≡ some d
    → answer ≡ allowed
unfolding on_guard reject
on_guard-allowed a candidate_invalid m text w d h = cc
on_guard-allowed a armor_error m text w d h = cc
on_guard-allowed a allowed m text w d h = refl
on_guard-allowed a (blocked reason) m text w d h = cc

process_plaintext-allowed :
    (a : Adapter) (id : ℤ) (m : Message) (text : List ℕ) (w : World) (d : Derived)
    → (process_plaintext a id m text w).0 ≡ some d
    → a.guard id text ≡ allowed
unfolding process_plaintext
process_plaintext-allowed a id m text w d h = on_guard-allowed a (a.guard id text) m text w d h

audit_accept_lem :
    (a : Adapter) (reason : List ℕ) (handled : Handled)
    → (audit_accept a reason handled).0 ≡ handled.0
unfolding audit_accept
audit_accept_lem a reason (none, w) = refl
audit_accept_lem a reason (some d, w) = refl

pub accept_plaintext-allowed :
    (a : Adapter) (reason : List ℕ) (id : ℤ) (m : Message) (w : World) (d : Derived)
    → (accept_plaintext a reason id m w).0 ≡ some d
    → (too_long a m ≡ false) × (a.guard id m.text ≡ allowed)
unfolding accept_plaintext reject
accept_plaintext-allowed a reason id m w d h = elim (Bool-cases (too_long a m)) [
  | inl long ↦ absurd (none_not_some (rw long at h))
  | inr short ↦
      let k = rw short at h in
      (
        short,
        process_plaintext-allowed a id m m.text w d
            (sym (audit_accept_lem a reason (process_plaintext a id m m.text w)) ∙ k),
      )
]

-- An envelope that was opened to bytes, from the operator to the orchestrator, that armor allowed.
abbrev pub Admitted : Adapter → ℤ → Envelope → Opened → Type 0
Admitted a id env opened =
    (bytes : List ℕ) × (opened ≡ plaintext bytes)
    × (env.from ≡ "operator")
    × (env.to ≡ "orchestrator")
    × (a.guard id (a.decode_text bytes) ≡ allowed)

and_true : (x y : Bool) → (x && y) ≡ true → (x ≡ true) × (y ≡ true)
and_true x y h = ground arith

on_opened-Admitted :
    (a : Adapter) (id : ℤ) (m : Message) (env : Envelope) (opened : Opened × ReplayCache)
    (w : World) (d : Derived)
    → (on_opened a id m env opened w).0 ≡ some d
    → Admitted a id env opened.0
unfolding on_opened reject
on_opened-Admitted a id m env (failed e, replay) w d h = cc
on_opened-Admitted a id m env (plaintext bytes, replay) w d h =
    elim (Bool-cases ((env.from == "operator") && (env.to == "orchestrator"))) [
      | inl roles ↦
          let (f, t) = and_true _ _ roles in
          (
            bytes,
            refl,
            eq_of_== env.from "operator" f,
            eq_of_== env.to "orchestrator" t,
            process_plaintext-allowed a id m (a.decode_text bytes) (record w { replay = replay }) d
                (rw roles at h),
          )
      | inr other ↦ absurd (none_not_some (rw other at h))
    ]

on_envelope-Admitted :
    (a : Adapter) (now id : ℤ) (m : Message) (parsed : Option Envelope) (w : World) (d : Derived)
    → (on_envelope a now id m parsed w).0 ≡ some d
    → (env : Envelope) × (parsed ≡ some env)
      × Admitted a id env
          (verify_and_open a.crypto env a.signing_key w.replay now a.private_key a.sender_key).0
unfolding on_envelope reject
on_envelope-Admitted a now id m none w d h = cc
on_envelope-Admitted a now id m (some env) w d h = (
  env,
  refl,
  on_opened-Admitted a id m env
      (verify_and_open a.crypto env a.signing_key w.replay now a.private_key a.sender_key) w d h,
)

pub route_envelope-Admitted :
    (a : Adapter) (now id : ℤ) (m : Message) (w : World) (d : Derived)
    → (route_envelope a now id m w).0 ≡ some d
    → (too_long a m ≡ false)
      × ((env : Envelope) × (a.parse_envelope m.text ≡ some env)
          × Admitted a id env
              (verify_and_open a.crypto env a.signing_key w.replay now a.private_key
                a.sender_key).0)
unfolding route_envelope reject
route_envelope-Admitted a now id m w d h = elim (Bool-cases (too_long a m)) [
  | inl long ↦ absurd (none_not_some (rw long at h))
  | inr short ↦
      (short, on_envelope-Admitted a now id m (a.parse_envelope m.text) w d (rw short at h))
]
