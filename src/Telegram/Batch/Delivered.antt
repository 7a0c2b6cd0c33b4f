-- ===== src/Telegram/Batch/Delivered.antt =====
-- A message leaves the adapter only behind the sender gate or the envelope, and behind armor.
use agent_builder.Common.{
  none_not_some, ◌≡◌, ◌≢◌, ◌⊎◌, refl, false, Option, some, none, arith, inl, inr, Bool-cases,
}
use agent_builder.Common.Int.{pos, ◌+ℤ◌}
use agent_builder.Common.Text.{is_empty}
use agent_builder.Envelope.Open.{Envelope, verify_and_open}
use agent_builder.Telegram.Authz.Decide.{Mode, Action, Decision, decide}
use agent_builder.Telegram.Authz.DecideLaws.{Holds, decide_accepts_iff, pairing_accepts}
use agent_builder.Telegram.Message.{Message, Derived, sender_id}
use agent_builder.Telegram.Pairing.{World}
use agent_builder.Telegram.Batch.{
  allowed, Adapter, Arrival, reject, too_long, decision_in, act, process_message, process_update,
}
use agent_builder.Telegram.Batch.Laws.{Admitted, accept_plaintext-allowed, route_envelope-Admitted}

-- The sender gate's way, and the envelope's way, to a message.
abbrev PlainWay : Adapter → Arrival → Message → Type 0
PlainWay a u m = (too_long a m ≡ false) × (a.guard u.update.update_id m.text ≡ allowed)

abbrev EnvelopeWay : Adapter → Arrival → Message → World → Type 0
EnvelopeWay a u m w =
    (too_long a m ≡ false)
    × ((env : Envelope) × (a.parse_envelope m.text ≡ some env)
        × Admitted a u.update.update_id env
            (verify_and_open a.crypto env a.signing_key w.replay u.now a.private_key
              a.sender_key).0)

act_lem :
    (action : Action) (a : Adapter) (u : Arrival) (m : Message) (d : Decision) (w : World)
    (derived : Derived)
    → (act action a u m d w).0 ≡ some derived
    → ((action ≡ Action.accept_plaintext) × PlainWay a u m)
      ⊎ ((action ≡ Action.route_envelope) × EnvelopeWay a u m w)
unfolding act reject
act_lem Action.reject_disabled a u m d w derived h = cc
act_lem Action.reject_unapproved a u m d w derived h = cc
act_lem Action.pairing_pending a u m d w derived h = cc
act_lem Action.pairing_approve a u m d w derived h = cc
act_lem Action.pairing_deny a u m d w derived h = cc
act_lem Action.pairing_malformed a u m d w derived h = cc
act_lem Action.accept_plaintext a u m d w derived h =
    inl (refl, accept_plaintext-allowed a _ u.update.update_id m w derived h)
act_lem Action.route_envelope a u m d w derived h =
    inr (refl, route_envelope-Admitted a u.now u.update.update_id m w derived h)

process_message_lem :
    (a : Adapter) (u : Arrival) (message : Option Message) (w : World) (derived : Derived)
    → (process_message a u message w).0 ≡ some derived
    → (m : Message) × (message ≡ some m)
      × ((((decision_in a.mode a m w).action ≡ Action.accept_plaintext) × PlainWay a u m)
          ⊎ (((decision_in a.mode a m w).action ≡ Action.route_envelope) × EnvelopeWay a u m w))
unfolding process_message
process_message_lem a u none w derived h = cc
process_message_lem a u (some m) w derived h = elim (Bool-cases (is_empty m.text)) [
  | inl empty ↦ absurd (none_not_some (rw empty at h))
  | inr full ↦ (
    m,
    refl,
    act_lem (decision_in a.mode a m w).action a u m (decision_in a.mode a m w) w derived
        (rw full at h),
  )
]

-- The two modes of the sender gate.
abbrev pub Gated : Mode → Type 0
Gated mode = (mode ≡ Mode.allowlist) ⊎ (mode ≡ Mode.pairing)

decision_in_lem :
    (mode : Mode) (a : Adapter) (m : Message) (w : World)
    → Gated mode
    → ((decision_in mode a m w).action ≡ Action.accept_plaintext → Holds w.store (sender_id m))
      × ((decision_in mode a m w).action ≢ Action.route_envelope)
unfolding decision_in
decision_in_lem Mode.allowlist a m w g = (
  (λ h. elim ((decide_accepts_iff Mode.allowlist (sender_id m) w.store).0 h) [
    | inl open_mode ↦ cc
    | inr (_, held) ↦ held
  ]),
  unfold decide in λ h. ground arith,
)
decision_in_lem Mode.pairing a m w g = pairing_accepts (sender_id m) m.text a.owner.owner_id w.store
decision_in_lem Mode.envelope a m w g = elim g [ inl e ↦ cc | inr e ↦ cc ]
decision_in_lem Mode.open_to_all a m w g = elim g [ inl e ↦ cc | inr e ↦ cc ]
decision_in_lem Mode.disabled a m w g = elim g [ inl e ↦ cc | inr e ↦ cc ]

-- In allowlist and pairing mode, an update yields a message only if the store holds its sender, its
-- text is within the limit, and armor allowed the text.
pub delivered_if_held :
    (a : Adapter) (u : Arrival) (w : World) (derived : Derived)
    → Gated a.mode
    → (process_update a u w).0 ≡ some derived
    → (m : Message) × (u.update.message ≡ some m)
      × Holds w.store (sender_id m)
      × (too_long a m ≡ false)
      × (a.guard u.update.update_id m.text ≡ allowed)
unfolding process_update
delivered_if_held a u w derived gated h =
    let w' = record w { offset = u.update.update_id +ℤ pos 1 } in
    let (m, here, way) = process_message_lem a u u.update.message w' derived h in
    let (accepts, routes) = decision_in_lem a.mode a m w' gated in
    elim way [
      | inl (accept, (short, clean)) ↦ (m, here, accepts accept, short, clean)
      | inr (route, _) ↦ absurd (routes route)
    ]

envelope_decision :
    (a : Adapter) (m : Message) (w : World) (mode : Mode)
    → mode ≡ Mode.envelope
    → (decision_in mode a m w).action ≢ Action.accept_plaintext
unfolding decision_in decide
envelope_decision a m w Mode.envelope e h = cc
envelope_decision a m w Mode.allowlist e h = cc
envelope_decision a m w Mode.pairing e h = cc
envelope_decision a m w Mode.open_to_all e h = cc
envelope_decision a m w Mode.disabled e h = cc

-- In envelope mode, an update yields a message only if its text is within the limit and reads as an
-- envelope from the operator to the orchestrator that VerifyAndOpen opened with the configured keys and
-- the replay cache, and armor allowed the plaintext.
pub delivered_if_opened :
    (a : Adapter) (u : Arrival) (w : World) (derived : Derived)
    → a.mode ≡ Mode.envelope
    → (process_update a u w).0 ≡ some derived
    → (m : Message) × (u.update.message ≡ some m)
      × (too_long a m ≡ false)
      × ((env : Envelope) × (a.parse_envelope m.text ≡ some env)
          × Admitted a u.update.update_id env
              (verify_and_open a.crypto env a.signing_key w.replay u.now a.private_key
                a.sender_key).0)
unfolding process_update
delivered_if_opened a u w derived mode h =
    let w' = record w { offset = u.update.update_id +ℤ pos 1 } in
    let (m, here, way) = process_message_lem a u u.update.message w' derived h in
    elim way [
      | inl (accept, _) ↦ absurd (envelope_decision a m w' a.mode mode accept)
      | inr (_, (short, opened)) ↦ (m, here, short, opened)
    ]
