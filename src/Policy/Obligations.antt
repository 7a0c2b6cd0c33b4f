-- ===== src/Policy/Obligations.antt =====
-- internal/policy/obligation.go: the obligations that come with a decision.
use agent_builder.Common.{
  Bool, true, false, Option, none, some, List, [], ◌∷◌, ℕ, ◌==◌, ◌&&◌, if◌then◌else◌,
}
use agent_builder.Common.Int.{ℤ, pos, negsuc, lt_int}
use agent_builder.Common.Text.{codes, text_eq}
use agent_builder.Policy.{Obligation, Value, text_value, bool_value, other_value}
mod Highest
mod Tests

unfoldable pub injection_rank : List ℕ → ℤ
unfolding text_eq
injection_rank mode =
    if mode == codes "proxy"
    then pos 2
    else if mode == codes "env"
    then pos 1
    else if mode == []
    then pos 0
    else negsuc 0

unfoldable pub as_text : Value → Option (List ℕ)
as_text (text_value s) = some s
as_text (bool_value b) = none
as_text other_value = none

unfoldable pub is_set : Value → Bool
is_set (text_value s) = false
is_set (bool_value b) = b
is_set other_value = false

-- The text of an obligation, if it has the type.
unfoldable pub text_of : List ℕ → Obligation → Option (List ℕ)
unfolding text_eq as_text
text_of type_name ob = if ob.type_name == type_name then as_text ob.value else none

unfoldable pub first_or : Option (List ℕ) → List ℕ → List ℕ
first_or (some s) rest = s
first_or none rest = rest

unfoldable pub tier_select : List Obligation → List ℕ
unfolding text_of first_or
tier_select [] = []
tier_select (ob ∷ obligations) =
    let rest = tier_select obligations in first_or (text_of (codes "tier_select") ob) rest

unfoldable pub audit_emit : List Obligation → Bool
unfolding text_eq is_set
audit_emit [] = false
audit_emit (ob ∷ obligations) =
    let rest = audit_emit obligations in
    if (ob.type_name == codes "audit_emit") && is_set ob.value then true else rest

-- With the floor of one obligation.
unfoldable pub raised : List ℕ → Option (List ℕ) → List ℕ
unfolding injection_rank lt_int
raised result none = result
raised result (some floor) =
    if lt_int (injection_rank result) (injection_rank floor) then floor else result

unfoldable pub floor_of : Obligation → Option (List ℕ)
unfolding text_of
floor_of = text_of (codes "vault_injection_floor")

unfoldable pub raise_injection_floor : List ℕ → List Obligation → List ℕ
unfolding raised floor_of
raise_injection_floor result [] = result
raise_injection_floor result (ob ∷ obligations) =
    raise_injection_floor (raised result (floor_of ob)) obligations
