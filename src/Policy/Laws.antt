-- ===== src/Policy/Laws.antt =====
-- When the policy client returns an allow.
use agent_builder.Common.{◌≡◌, refl, ap, ◌∙◌, some_inj, false, Option, none, some, ◌↔◌, arith}
use agent_builder.Common.Text.{codes, text_eq}
use agent_builder.Policy.{allow, RawResponse, decide, denied, known}

-- The reply was read, is not shaped like an error, and its decision is the word allow.
pub record IsAllowing (reply : Option RawResponse) : Type 0 where
  pub raw : RawResponse
  pub read : reply ≡ some raw
  pub no_error : raw.has_wire_err ≡ false
  pub word : raw.decision ≡ codes "allow"

raw-allows :
    (raw : RawResponse)
    → (decide (some raw)).0.decision ≡ allow
    → (raw.has_wire_err ≡ false) × (raw.decision ≡ codes "allow")
unfolding decide denied known
raw-allows raw h = ground arith

allows-raw :
    (raw : RawResponse)
    → raw.has_wire_err ≡ false
    → raw.decision ≡ codes "allow"
    → (decide (some raw)).0.decision ≡ allow
unfolding decide denied known
allows-raw raw no_error word = ground (arith, word)

-- Decide returns an allow exactly if a reply was read that is not shaped like an error and whose
-- decision is the word allow; everything else is a deny or a request for an approval.
pub allow_iff-IsAllowing :
    (reply : Option RawResponse) → ((decide reply).0.decision ≡ allow) ↔ IsAllowing reply
unfolding decide denied
allow_iff-IsAllowing none = (λ h. absurd cc, λ a. absurd cc)
allow_iff-IsAllowing (some raw) = (
  λ h.
      let (no_error, word) = raw-allows raw h in
      record { raw = raw; read = refl; no_error = no_error; word = word },
  λ a.
      allows-raw raw (ap (λ r. r.has_wire_err) (some_inj a.read) ∙ a.no_error)
        (ap (λ r. r.decision) (some_inj a.read) ∙ a.word),
)
