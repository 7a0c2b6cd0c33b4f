-- ===== src/Telegram/Authz/DecideLaws.antt =====
-- Who is heard: the mode decisions accept a plaintext only from an approved sender, and only the
-- owner's words can change who is approved.
use agent_builder.Common.{
  some_inj, ◌≡◌, ◌≢◌, ◌⊎◌, ◌↔◌, refl, sym, ap, subst, Bool, true, false, Option, none, some, List,
  [], ◌∷◌, ℕ, ◌==◌, ◌&&◌, arith, inl, inr, ◌∙◌, Bool-cases, if◌then◌else◌, eq_of_==, ==-refl,
}
use agent_builder.Common.Int.{ℤ, int_eq}
use agent_builder.Common.Text.{codes, text_eq}
use agent_builder.Telegram.Authz.Ids.{normalize}
use agent_builder.Telegram.Authz.Store.{Store, contains}
use agent_builder.Telegram.Authz.Decide.{
  Mode, Action, AuditReason, untargeted, approves, decide, fields, to_lower, ApproveDenyGrammar,
  no_grammar, with_id, with_arguments, owned_by, approved_by, by_words, parse_approve_deny,
  is_owner, on_grammar, on_ordinary, decide_pairing,
}

owned_by_iff : (id : Option ℤ) (owner : ℤ) → (owned_by id owner ≡ true) ↔ (id ≡ some owner)
unfolding owned_by
owned_by_iff none owner = ground arith
owned_by_iff (some sender) owner = ground arith

is_owner_iff :
    (raw : List ℕ) (owner : ℤ) → (is_owner raw owner ≡ true) ↔ (normalize raw ≡ some owner)
unfolding is_owner
is_owner_iff raw owner = owned_by_iff (normalize raw) owner

-- A store is there, and Contains finds the sender in it.
abbrev pub Holds : Option Store → List ℕ → Type 0
Holds store raw = (s : Store) × (store ≡ some s) × (contains s raw ≡ some true)

approved_by-true : (answer : Option Bool) → (approved_by answer ≡ true) ↔ (answer ≡ some true)
unfolding approved_by
approved_by-true none = ground arith
approved_by-true (some b) = ground arith

approves_iff : (store : Option Store) (raw : List ℕ) → (approves store raw ≡ true) ↔ Holds store raw
unfolding approves
approves_iff none raw = ((λ h. cc), λ (s, e, _). cc)
approves_iff (some s) raw = (
  (λ h. (s, refl, (approved_by-true (contains s raw)).0 h)),
  λ (s', e, h). (approved_by-true (contains s raw)).1 (ap (λ t. contains t raw) (some_inj e) ∙ h),
)

by_store_iff :
    (mode : Mode) (raw : List ℕ) (store : Option Store)
    → mode ≢ Mode.open_to_all
    → (mode ≡ Mode.allowlist) ⊎ (mode ≡ Mode.pairing)
    → decide mode raw store ≡ (
        if approves store raw
        then untargeted Action.accept_plaintext AuditReason.plaintext_accepted
        else untargeted Action.reject_unapproved AuditReason.sender_not_approved)
    → ((decide mode raw store).action ≡ Action.accept_plaintext) ↔ (
        (mode ≡ Mode.open_to_all)
        ⊎ (((mode ≡ Mode.allowlist) ⊎ (mode ≡ Mode.pairing)) × Holds store raw))
by_store_iff mode raw store closed by e = (
  (λ h. inr (by, (approves_iff store raw).0 (ground arith))),
  λ h. elim h [
    | inl o ↦ absurd (closed o)
    | inr (_, held) ↦ let a = (approves_iff store raw).1 held in ground arith
  ],
)

-- The decision on whoever is not the owner does not depend on the text, and is to accept it as
-- plaintext or to hold the sender pending.
pub stranger_cannot_approve :
    (raw text text' : List ℕ) (owner : ℤ) (store : Option Store)
    → normalize raw ≢ some owner
    → (decide_pairing raw owner text store ≡ decide_pairing raw owner text' store)
      × ((decide_pairing raw owner text store
            ≡ untargeted Action.accept_plaintext AuditReason.plaintext_accepted)
          ⊎ (decide_pairing raw owner text store
              ≡ untargeted Action.pairing_pending AuditReason.pairing_request))
unfolding decide_pairing on_ordinary
stranger_cannot_approve raw text text' owner store h = elim (Bool-cases (is_owner raw owner)) [
  | inl o ↦ absurd (h ((is_owner_iff raw owner).0 o))
  | inr o ↦ rw o (ground arith)
]

-- A sender is accepted as plaintext exactly if the mode is open, or is allowlist or pairing and a
-- store is there and holds the sender.
pub decide_accepts_iff :
    (mode : Mode) (raw : List ℕ) (store : Option Store)
    → ((decide mode raw store).action ≡ Action.accept_plaintext) ↔ (
        (mode ≡ Mode.open_to_all)
        ⊎ (((mode ≡ Mode.allowlist) ⊎ (mode ≡ Mode.pairing))
            × ((s : Store) × (store ≡ some s) × (contains s raw ≡ some true))))
unfolding decide
decide_accepts_iff Mode.envelope raw store =
    ((λ h. cc), λ h. elim h [ inl o ↦ cc | inr (inl m, _) ↦ cc | inr (inr m, _) ↦ cc ])
decide_accepts_iff Mode.allowlist raw store =
    by_store_iff Mode.allowlist raw store (λ e. cc) (inl refl) refl
decide_accepts_iff Mode.pairing raw store =
    by_store_iff Mode.pairing raw store (λ e. cc) (inr refl) refl
decide_accepts_iff Mode.open_to_all raw store = ((λ h. inl refl), λ h. refl)
decide_accepts_iff Mode.disabled raw store =
    ((λ h. cc), λ h. elim h [ inl o ↦ cc | inr (inl m, _) ↦ cc | inr (inr m, _) ↦ cc ])

-- What the grammar reads as an approval of the target.
abbrev IsApproval : ApproveDenyGrammar → ℤ → Type 0
IsApproval g target = (g.is_verb ≡ true) × (g.valid_id ≡ true) × (g.deny ≡ false) × (g.id ≡ target)

abbrev ApprovalWords : List (List ℕ) → ℤ → Type 0
ApprovalWords words target =
    (verb argument : List ℕ) × (words ≡ verb ∷ argument ∷ [])
    × (to_lower verb ≡ codes "approve")
    × (normalize argument ≡ some target)

with_id-approval :
    (deny : Bool) (id : Option ℤ) (target : ℤ)
    → IsApproval (with_id deny id) target
    → (deny ≡ false) × (id ≡ some target)
unfolding with_id
with_id-approval deny none target (v, ok, d, i) = cc
with_id-approval deny (some id) target (v, ok, d, i) = (d, ap some i)

with_arguments-approval :
    (deny : Bool) (arguments : List (List ℕ)) (target : ℤ)
    → IsApproval (with_arguments deny arguments) target
    → (deny ≡ false)
      × ((argument : List ℕ) × (arguments ≡ argument ∷ []) × (normalize argument ≡ some target))
unfolding with_arguments
with_arguments-approval deny [] target h = let e = with_id-approval deny none target h in cc
with_arguments-approval deny (argument ∷ []) target h =
    let e = with_id-approval deny (normalize argument) target h in (e.0, (argument, refl, e.1))
with_arguments-approval deny (_ ∷ _ ∷ _) target h =
    let e = with_id-approval deny none target h in cc

no_approval : (target : ℤ) → IsApproval no_grammar target → ⊥
no_approval target (v, _, _, _) = cc

denied :
    (arguments : List (List ℕ)) (target : ℤ) → IsApproval (with_arguments true arguments) target → ⊥
denied arguments target h = let (d, _) = with_arguments-approval true arguments target h in cc

by_words-approval :
    (words : List (List ℕ)) (target : ℤ)
    → IsApproval (by_words words) target
    → ApprovalWords words target
unfolding by_words
by_words-approval [] target (v, _, _, _) = cc
by_words-approval (word ∷ arguments) target h =
    elim (Bool-cases (to_lower word == codes "approve")) [
      | inl approve ↦
          let (d, (argument, one, id)) =
            with_arguments-approval false arguments target (rw approve at h) in
          (word, argument, ap (λ l. word ∷ l) one, eq_of_== _ _ approve, id)
      | inr other ↦ elim (Bool-cases (to_lower word == codes "deny")) [
        | inl deny ↦ absurd (denied arguments target (rw (other, deny) at h))
        | inr neither ↦ absurd (no_approval target (rw (other, neither) at h))
      ]
    ]

by_words-ApprovalWords :
    (words : List (List ℕ)) (target : ℤ)
    → ApprovalWords words target
    → IsApproval (by_words words) target
unfolding by_words with_arguments with_id
by_words-ApprovalWords words target (verb, argument, w, v, id) =
    subst (λ ws. IsApproval (by_words ws) target) (sym w)
      (rw (v, ==-refl (codes "approve"), id) (refl, refl, refl, refl))

on_grammar-approval :
    (g : ApproveDenyGrammar) (target : ℤ)
    → (on_grammar g ≡ record {
      action = Action.pairing_approve;
      reason = AuditReason.pairing_approved;
      target_id = target;
    })
      ↔ ((g.valid_id ≡ true) × (g.deny ≡ false) × (g.id ≡ target))
unfolding on_grammar
on_grammar-approval g target = ground arith

on_ordinary-approval :
    (raw : List ℕ) (store : Option Store) (target : ℤ)
    → on_ordinary raw store ≢ record {
      action = Action.pairing_approve;
      reason = AuditReason.pairing_approved;
      target_id = target;
    }
unfolding on_ordinary
on_ordinary-approval raw store target h = ground arith

words_read_iff :
    (text : List ℕ) (target : ℤ)
    → IsApproval (parse_approve_deny text) target ↔ ApprovalWords (fields text) target
unfolding parse_approve_deny
words_read_iff text target =
    (by_words-approval (fields text) target, by_words-ApprovalWords (fields text) target)

guarded_iff :
    (owner verb : Bool) (g : ApproveDenyGrammar) (raw : List ℕ) (store : Option Store) (target : ℤ)
    → g.is_verb ≡ verb
    → ((if owner && verb then on_grammar g else on_ordinary raw store) ≡ record {
      action = Action.pairing_approve;
      reason = AuditReason.pairing_approved;
      target_id = target;
    })
      ↔ ((owner ≡ true) × IsApproval g target)
guarded_iff true true g raw store target v = (
  (λ h. let (ok, d, i) = (on_grammar-approval g target).0 h in (refl, (v, ok, d, i))),
  λ (_, (_, ok, d, i)). (on_grammar-approval g target).1 (ok, d, i),
)
guarded_iff true false g raw store target v =
    ((λ h. absurd (on_ordinary-approval raw store target h)), λ (_, (v', _, _, _)). cc)
guarded_iff false verb g raw store target v =
    ((λ h. absurd (on_ordinary-approval raw store target h)), λ (o, _). cc)

-- An approval is decided exactly if the sender is the owner, and the text is the word approve, in
-- capital or small letters, and one word that normalizes to the target.
pub approve_iff :
    (raw text : List ℕ) (owner target : ℤ) (store : Option Store)
    → (decide_pairing raw owner text store ≡ record {
      action = Action.pairing_approve;
      reason = AuditReason.pairing_approved;
      target_id = target;
    })
      ↔ ((normalize raw ≡ some owner)
          × ((verb argument : List ℕ) × (fields text ≡ verb ∷ argument ∷ [])
              × (to_lower verb ≡ codes "approve")
              × (normalize argument ≡ some target)))
unfolding decide_pairing
approve_iff raw text owner target store =
    let guarded =
      guarded_iff (is_owner raw owner) _ (parse_approve_deny text) raw store target refl in
    (
      (λ h.
          let (o, approval) = guarded.0 h in
          ((is_owner_iff raw owner).0 o, (words_read_iff text target).0 approval)),
      λ (o, words). guarded.1 ((is_owner_iff raw owner).1 o, (words_read_iff text target).1 words),
    )

on_grammar-action :
    (g : ApproveDenyGrammar)
    → ((on_grammar g).action ≢ Action.accept_plaintext)
      × ((on_grammar g).action ≢ Action.route_envelope)
unfolding on_grammar
on_grammar-action g = ground arith

on_ordinary-action :
    (raw : List ℕ) (store : Option Store)
    → ((on_ordinary raw store).action ≡ Action.accept_plaintext → Holds store raw)
      × ((on_ordinary raw store).action ≢ Action.route_envelope)
unfolding on_ordinary
on_ordinary-action raw store = elim (Bool-cases (approves store raw)) [
  | inl yes_held ↦ rw yes_held ((λ _. (approves_iff store raw).0 yes_held), λ h. cc)
  | inr not_held ↦ rw not_held ((λ h. cc), λ h. cc)
]

guarded_action :
    (guard : Bool) (g : ApproveDenyGrammar) (raw : List ℕ) (store : Option Store)
    → ((if guard then on_grammar g else on_ordinary raw store).action ≡ Action.accept_plaintext
        → Holds store raw)
      × ((if guard then on_grammar g else on_ordinary raw store).action ≢ Action.route_envelope)
guarded_action true g raw store =
    ((λ h. absurd ((on_grammar-action g).0 h)), (on_grammar-action g).1)
guarded_action false g raw store = on_ordinary-action raw store

-- In pairing mode, too, only a sender that the store holds is accepted as plaintext, and no text goes
-- to the envelope pipeline.
pub pairing_accepts :
    (raw text : List ℕ) (owner : ℤ) (store : Option Store)
    → ((decide_pairing raw owner text store).action ≡ Action.accept_plaintext → Holds store raw)
      × ((decide_pairing raw owner text store).action ≢ Action.route_envelope)
unfolding decide_pairing
pairing_accepts raw text owner store =
    guarded_action (is_owner raw owner && (parse_approve_deny text).is_verb)
      (parse_approve_deny text) raw store
