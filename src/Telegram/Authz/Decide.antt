-- ===== src/Telegram/Authz/Decide.antt =====
-- The auth modes and the decisions on an update: `ParseMode`, `ConsultsStore` of authz.go, decide.go
-- and pairing.go of internal/channel/telegram/authz. Texts are lists of code points.
use agent_builder.Common.{
  Bool, true, false, Option, none, some, List, [], ◌∷◌, ◌++◌, ℕ, ◌+◌, leb, ◌==◌, ◌&&◌, nat_eq,
  if◌then◌else◌, map,
}
use agent_builder.Common.Int.{ℤ, pos, int_eq}
use agent_builder.Common.Text.{is_space, is_empty, is_blank, codes, text_eq}
use agent_builder.Telegram.Authz.Ids.{normalize}
use agent_builder.Telegram.Authz.Store.{Store, contains}

pub data Mode : Type 0 where
  envelope : Mode
  allowlist : Mode
  pairing : Mode
  open_to_all : Mode
  disabled : Mode

-- `none` is ErrUnknownMode.
unfoldable pub parse_mode : List ℕ → Option Mode
unfolding is_blank text_eq
parse_mode raw =
    if is_blank raw
    then some envelope
    else if raw == codes "envelope"
    then some envelope
    else if raw == codes "allowlist"
    then some allowlist
    else if raw == codes "pairing"
    then some pairing
    else if raw == codes "open"
    then some open_to_all
    else if raw == codes "disabled"
    then some disabled
    else none

unfoldable pub consults_store : Mode → Bool
consults_store allowlist = true
consults_store pairing = true
consults_store _ = false

pub data Action : Type 0 where
  route_envelope : Action
  accept_plaintext : Action
  reject_disabled : Action
  reject_unapproved : Action
  pairing_pending : Action
  pairing_approve : Action
  pairing_deny : Action
  pairing_malformed : Action

pub data AuditReason : Type 0 where
  no_reason : AuditReason
  channel_disabled : AuditReason
  sender_not_approved : AuditReason
  plaintext_accepted : AuditReason
  pairing_request : AuditReason
  pairing_approved : AuditReason
  pairing_denied : AuditReason
  pairing_bad_grammar : AuditReason

pub record Decision : Type 0 where
  pub action : Action
  pub reason : AuditReason
  pub target_id : ℤ

-- A decision with the zero target.
abbrev pub untargeted : Action → AuditReason → Decision
untargeted a r = record { action = a; reason = r; target_id = pos 0 }

-- The answer of Contains is true, with no error.
unfoldable pub approved_by : Option Bool → Bool
approved_by none = false
approved_by (some approved) = approved

-- The same for a store that may be nil.
unfoldable pub approves : Option Store → List ℕ → Bool
unfolding approved_by contains
approves none raw = false
approves (some s) raw = approved_by (contains s raw)

abbrev by_store : Option Store → List ℕ → Decision
by_store store raw =
    if approves store raw
    then untargeted accept_plaintext plaintext_accepted
    else untargeted reject_unapproved sender_not_approved

unfoldable pub decide : Mode → List ℕ → Option Store → Decision
unfolding approves
decide disabled raw store = untargeted reject_disabled channel_disabled
decide open_to_all raw store = untargeted accept_plaintext plaintext_accepted
decide allowlist raw store = by_store store raw
decide pairing raw store = by_store store raw
decide envelope raw store = untargeted route_envelope no_reason

abbrev flush : List ℕ → List (List ℕ) → List (List ℕ)
flush word rest = if is_empty word then rest else word ∷ rest

-- The words of a text behind the part of a word read so far.
unfoldable pub fields_from : List ℕ → List ℕ → List (List ℕ)
unfolding is_space
fields_from word [] = flush word []
fields_from word (c ∷ s) =
    let rest = fields_from (if is_space c then [] else word ++ (c ∷ [])) s in
    if is_space c then flush word rest else rest

-- strings.Fields
unfoldable pub fields : List ℕ → List (List ℕ)
unfolding fields_from
fields s = fields_from [] s

-- strings.ToLower for comparisons with ASCII words: the code points whose lower case is ASCII are
-- the capital letters, U+0130 and U+212A; the others that it changes stay other than ASCII.
unfoldable pub lower_rune : ℕ → ℕ
unfolding nat_eq
lower_rune c =
    if leb b'A' c && leb c b'Z'
    then c + 32
    else if c == 0x130
    then b'i'
    else if c == 0x212a
    then b'k'
    else c

unfoldable pub to_lower : List ℕ → List ℕ
unfolding lower_rune
to_lower = map lower_rune

pub record ApproveDenyGrammar : Type 0 where
  pub is_verb : Bool
  pub deny : Bool
  pub valid_id : Bool
  pub id : ℤ

abbrev pub no_grammar : ApproveDenyGrammar
no_grammar = record { is_verb = false; deny = false; valid_id = false; id = pos 0 }

unfoldable pub with_id : Bool → Option ℤ → ApproveDenyGrammar
with_id deny none = record { is_verb = true; deny = deny; valid_id = false; id = pos 0 }
with_id deny (some id) = record { is_verb = true; deny = deny; valid_id = true; id = id }

-- The returns for a text that starts with a verb.
unfoldable pub with_arguments : Bool → List (List ℕ) → ApproveDenyGrammar
unfolding with_id normalize
with_arguments deny [] = with_id deny none
with_arguments deny (argument ∷ []) = with_id deny (normalize argument)
with_arguments deny (_ ∷ _ ∷ _) = with_id deny none

unfoldable pub by_words : List (List ℕ) → ApproveDenyGrammar
unfolding with_arguments to_lower text_eq
by_words [] = no_grammar
by_words (word ∷ arguments) =
    let verb = to_lower word in
    if verb == codes "approve"
    then with_arguments false arguments
    else if verb == codes "deny"
    then with_arguments true arguments
    else no_grammar

unfoldable pub parse_approve_deny : List ℕ → ApproveDenyGrammar
unfolding fields by_words
parse_approve_deny text = by_words (fields text)

unfoldable pub owned_by : Option ℤ → ℤ → Bool
unfolding int_eq
owned_by none owner = false
owned_by (some sender) owner = sender == owner

-- isOwner
unfoldable pub is_owner : List ℕ → ℤ → Bool
unfolding normalize owned_by
is_owner raw owner = owned_by (normalize raw) owner

-- The decision on an owner's text that starts with a verb.
unfoldable pub on_grammar : ApproveDenyGrammar → Decision
on_grammar g =
    if g.valid_id
    then if g.deny
      then record { action = pairing_deny; reason = pairing_denied; target_id = g.id }
      else record { action = pairing_approve; reason = pairing_approved; target_id = g.id }
    else untargeted pairing_malformed pairing_bad_grammar

-- Steps (3) and (4).
unfoldable pub on_ordinary : List ℕ → Option Store → Decision
unfolding approves
on_ordinary raw store =
    if approves store raw
    then untargeted accept_plaintext plaintext_accepted
    else untargeted pairing_pending pairing_request

unfoldable pub decide_pairing : List ℕ → ℤ → List ℕ → Option Store → Decision
unfolding is_owner parse_approve_deny on_grammar on_ordinary
decide_pairing raw owner text store =
    if is_owner raw owner && (parse_approve_deny text).is_verb
    then on_grammar (parse_approve_deny text)
    else on_ordinary raw store
