-- ===== src/Policy.antt =====
-- internal/policy/client.go: the decision that a reply of the policy engine comes to. The socket and
-- the JSON are left out: `none` is a request that failed before a reply was read.
use agent_builder.Common.{
  Bool, true, false, Option, none, some, List, [], ◌∷◌, ℕ, ◌==◌, if◌then◌else◌, ◌≡◌, ◌↔◌, refl,
}
use agent_builder.Common.Text.{codes, text_eq, is_empty}
pub mod Laws
pub mod Obligations
mod Tests

pub data Decision : Type 0 where
  allow deny require_approval : Decision

unfoldable pub decision_text : Decision → List ℕ
decision_text allow = codes "allow"
decision_text deny = codes "deny"
decision_text require_approval = codes "require_approval"

-- What an interface holds that JSON was read into, as far as it is a string or a bool.
pub data Value : Type 0 where
  text_value : List ℕ → Value
  bool_value : Bool → Value
  other_value : Value

pub record Obligation : Type 0 where
  pub type_name : List ℕ
  pub value : Value

pub record RawResponse : Type 0 where
  pub decision : List ℕ
  pub obligations : List Obligation
  pub reason : List ℕ
  pub has_wire_err : Bool

pub record DecideResponse : Type 0 where
  pub decision : Decision
  pub obligations : List Obligation
  pub reason : List ℕ

unfoldable pub denied : DecideResponse
denied = record { decision = deny; obligations = []; reason = [] }

unfoldable pub known : Decision → RawResponse → DecideResponse
known d raw = record { decision = d; obligations = raw.obligations; reason = raw.reason }

-- The Boolean is whether an error is returned beside the response.
unfoldable pub decide : Option RawResponse → DecideResponse × Bool
unfolding text_eq denied known
decide none = (denied, true)
decide (some raw) =
    if raw.has_wire_err
    then (denied, true)
    else if is_empty raw.decision
    then (denied, true)
    else if raw.decision == codes "allow"
    then (known allow raw, false)
    else if raw.decision == codes "deny"
    then (known deny raw, false)
    else if raw.decision == codes "require_approval"
    then (known require_approval raw, false)
    else (denied, false)

pub record DecideRequest : Type 0 where
  pub action : List ℕ
  pub resource_type : List ℕ
  pub resource_id : List ℕ
  pub target_repo : List ℕ
  pub sink : List ℕ
  pub risk : List ℕ
