-- ===== src/Policy/Obligations/Tests.antt =====
-- Obligations that name two floors.
use agent_builder.Common.{◌≡◌, refl, List, [], ◌∷◌, true, All, ◌⊎◌}
use agent_builder.Common.Text.{codes, text_eq}
use agent_builder.Common.Int.{◌≤ℤ◌}
use agent_builder.Policy.{Obligation, text_value, bool_value}
use agent_builder.Policy.Obligations.{
  raise_injection_floor, tier_select, audit_emit, injection_rank, floor_of,
}
use agent_builder.Policy.Obligations.Highest.{IsBelow, IsFloorIn, raise_injection_floor-IsHighest}

abbrev three : List Obligation
three =
    record { type_name = codes "vault_injection_floor"; value = text_value (codes "env") }
    ∷ record { type_name = codes "vault_injection_floor"; value = text_value (codes "none") }
    ∷ record { type_name = codes "audit_emit"; value = bool_value true }
    ∷ []

three_read :
    (raise_injection_floor (codes "proxy") three ≡ codes "proxy")
    × (raise_injection_floor [] three ≡ codes "env")
    × (audit_emit three ≡ true)
    × (tier_select three ≡ [])
unfolding raise_injection_floor audit_emit tier_select
three_read = (refl, refl, refl, refl)

raise_injection_floor-IsHighest_example :
    (injection_rank [] ≤ℤ injection_rank (raise_injection_floor [] three))
    × All (λ ob. IsBelow (raise_injection_floor [] three) (floor_of ob)) three
    × ((raise_injection_floor [] three ≡ []) ⊎ IsFloorIn (raise_injection_floor [] three) three)
raise_injection_floor-IsHighest_example = raise_injection_floor-IsHighest [] three
