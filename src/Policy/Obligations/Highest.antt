-- ===== src/Policy/Obligations/Highest.antt =====
-- The floor that the obligations raise the injection mode to.
use agent_builder.Common.{
  ◌≡◌, refl, Option, none, some, List, [], ◌∷◌, ℕ, All, Bool-cases, inl, inr, ◌⊎◌, ◌∙◌, arith,
}
use agent_builder.Common.Int.{◌≤ℤ◌, lt_int, int_laws}
use agent_builder.Policy.{Obligation}
use agent_builder.Policy.Obligations.{injection_rank, raised, floor_of, raise_injection_floor}

-- No stronger than the mode, where there is a text.
abbrev pub IsBelow : List ℕ → Option (List ℕ) → Type 0
IsBelow mode none = Unit
IsBelow mode (some floor) = injection_rank floor ≤ℤ injection_rank mode

-- The floor of one of the obligations.
abbrev pub IsFloorIn : List ℕ → List Obligation → Type 0
IsFloorIn mode [] = ⊥
IsFloorIn mode (ob ∷ obligations) = (floor_of ob ≡ some mode) ⊎ IsFloorIn mode obligations

-- One obligation: the result is as strong as what it was and as the floor, and is one of the two.
raised-Is :
    (mode : List ℕ) (floor : Option (List ℕ))
    → (injection_rank mode ≤ℤ injection_rank (raised mode floor))
      × IsBelow (raised mode floor) floor
      × ((raised mode floor ≡ mode) ⊎ (floor ≡ some (raised mode floor)))
unfolding raised
raised-Is mode none = (omega arith, tt, inl refl)
raised-Is mode (some floor) =
    elim (Bool-cases (lt_int (injection_rank mode) (injection_rank floor))) [
      | inl weaker ↦ rw weaker (omega int_laws, omega int_laws, inr refl)
      | inr strong ↦ rw strong (omega int_laws, omega int_laws, inl refl)
    ]

IsBelow-trans :
    (a b : List ℕ) (floor : Option (List ℕ))
    → injection_rank a ≤ℤ injection_rank b
    → IsBelow a floor
    → IsBelow b floor
IsBelow-trans a b none up below = tt
IsBelow-trans a b (some floor) up below = omega arith

-- RaiseInjectionFloor never weakens the mode; its result is at least as strong as every floor that the
-- obligations name, and is the mode it was given or one of the floors.
pub raise_injection_floor-IsHighest :
    (mode : List ℕ) (obligations : List Obligation)
    → (injection_rank mode ≤ℤ injection_rank (raise_injection_floor mode obligations))
      × All (λ ob. IsBelow (raise_injection_floor mode obligations) (floor_of ob)) obligations
      × ((raise_injection_floor mode obligations ≡ mode)
          ⊎ IsFloorIn (raise_injection_floor mode obligations) obligations)
unfolding raise_injection_floor
raise_injection_floor-IsHighest mode [] = (omega arith, tt, inl refl)
raise_injection_floor-IsHighest mode (ob ∷ obligations) =
    let next = raised mode (floor_of ob) in
    let final = raise_injection_floor next obligations in
    let (up, below, from) = raised-Is mode (floor_of ob) in
    let (ups, belows, froms) = raise_injection_floor-IsHighest next obligations in
    (
      omega arith,
      (IsBelow-trans next final (floor_of ob) ups below, belows),
      elim froms [
        | inr later ↦ inr (inr later)
        | inl same ↦ elim from [
          | inl kept ↦ inl (same ∙ kept)
          | inr taken ↦ inr (inl (cc (taken, same)))
        ]
      ],
    )
