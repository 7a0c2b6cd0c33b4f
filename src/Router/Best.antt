-- ===== src/Router/Best.antt =====
-- What `Select` returns: a cheapest candidate, and an error only if there is no candidate.
use agent_builder.Common.{
  ◌≡◌, ◌⊎◌, ◌↔◌, refl, ap, subst, Bool, true, false, not, some, none, List, ℕ, ◌==◌, ◌&&◌, eq_of_==,
  ne_of_==, arith, inl, inr, Bool-cases, Option-cases, In,
}
use agent_builder.Common.Int.{ℤ, ◌≤ℤ◌, int_eq, lt_int, not_lt_int→le, le→not_lt_int}
use agent_builder.Registry.{
  RegistryEntry, AvailStatus, available, exhausted, other_status, list_entries,
}
use agent_builder.Router.{
  Router, RoutingSpec, Sensitivity, sensitive, unhinted, is_local, is_available, is_escalated,
  lt_text, less_tied, less, select, eligible, try_auto_recover,
}
use agent_builder.Router.Select.{Candidate, select-least, select_complete}

-- What Select asks of an entry.
abbrev pub Eligible : Router → RoutingSpec → RegistryEntry → Type 0
Eligible r spec e =
    (is_escalated r e.id ≡ false)
    × (spec.min_capability ≤ℤ e.capability_tier)
    × (e.availability.status ≡ available)

three_tests :
    (a b c : Bool) → ((not a && not b && c) ≡ true) ↔ ((a ≡ false) × (b ≡ false) × (c ≡ true))
three_tests true b c = ground arith
three_tests false true c = ground arith
three_tests false false c = ground arith

is_available→available : (status : AvailStatus) → is_available status ≡ true → status ≡ available
unfolding is_available
is_available→available available h = refl
is_available→available exhausted h = cc
is_available→available (other_status _) h = cc

eligible_iff :
    (r : Router) (spec : RoutingSpec) (e : RegistryEntry)
    → (eligible r spec e ≡ true) ↔ Eligible r spec e
unfolding eligible is_available
eligible_iff r spec e =
    let parts =
      three_tests (is_escalated r e.id) (lt_int e.capability_tier spec.min_capability)
        (is_available e.availability.status) in
    (
      (λ h.
          let (fresh, strong, free) = parts.0 h in
          (
            fresh,
            not_lt_int→le e.capability_tier spec.min_capability strong,
            is_available→available _ free,
          )),
      λ (fresh, strong, free).
          parts.1 (
            fresh,
            le→not_lt_int e.capability_tier spec.min_capability strong,
            ap is_available free,
          ),
    )

-- `e` is no worse a choice than `b`.
abbrev pub NoWorse : Sensitivity → RegistryEntry → RegistryEntry → Type 0
NoWorse hint e b =
    (e.cost_weight ≤ℤ b.cost_weight)
    × (b.cost_weight ≡ e.cost_weight → hint ≡ sensitive → is_local b ≡ true → is_local e ≡ true)
    × (b.cost_weight ≡ e.cost_weight
        → (hint ≡ unhinted) ⊎ (is_local b ≡ is_local e)
        → lt_text b.id e.id ≡ false)

equal_not_lt : (x y : ℤ) → x ≡ y → lt_int x y ≡ false
unfolding lt_int
equal_not_lt x y h = ground arith

tied_local :
    (hint : Sensitivity) (e b : RegistryEntry)
    → hint ≡ sensitive
    → is_local b ≡ true
    → less_tied hint b e ≡ false
    → is_local e ≡ true
unfolding less_tied
tied_local unhinted e b s l h = cc
tied_local sensitive e b s l h = ground arith

tied_id :
    (hint : Sensitivity) (e b : RegistryEntry)
    → (hint ≡ unhinted) ⊎ (is_local b ≡ is_local e)
    → less_tied hint b e ≡ false
    → lt_text b.id e.id ≡ false
unfolding less_tied
tied_id unhinted e b t h = h
tied_id sensitive e b t h = ground arith

less→NoWorse : (hint : Sensitivity) (e b : RegistryEntry) → less hint b e ≡ false → NoWorse hint e b
unfolding less
less→NoWorse hint e b h = elim (Bool-cases (b.cost_weight == e.cost_weight)) [
  | inl same ↦
      let tied : less_tied hint b e ≡ false = rw same at h in
      (
        not_lt_int→le b.cost_weight e.cost_weight
            (equal_not_lt b.cost_weight e.cost_weight (eq_of_== b.cost_weight e.cost_weight same)),
        (λ _ s l. tied_local hint e b s l tied),
        λ _ t. tied_id hint e b t tied,
      )
  | inr differ ↦
      let dear : lt_int b.cost_weight e.cost_weight ≡ false = rw differ at h in
      (
        not_lt_int→le b.cost_weight e.cost_weight dear,
        (λ same _ _. absurd (ne_of_== b.cost_weight e.cost_weight differ same)),
        λ same _. absurd (ne_of_== b.cost_weight e.cost_weight differ same),
      )
]

-- An entry that Select returns is a listed one, recovered if the time of its reset has passed, is
-- not escalated past, has the capability asked for and is available; and it is no worse a choice than
-- any other such entry: it costs no more, under a sensitive hint it is local if one of the same cost
-- is, and no entry of its cost that is as local, or that the hint does not tell apart, has a smaller ID.
pub select_best :
    (r : Router) (spec : RoutingSpec) (now : List ℕ → ℤ) (e : RegistryEntry)
    → (select spec now r).0 ≡ some e
    → Candidate r spec now (list_entries r.catalog) e
      × Eligible r spec e
      × ((b : RegistryEntry)
          → Candidate r spec now (list_entries r.catalog) b
          → NoWorse spec.sensitivity_hint e b)
select_best r spec now e h =
    let (candidate, least) = select-least r spec now e h in
    let (_, _, _, ok) = candidate in
    (
      candidate,
      (eligible_iff r spec e).0 ok,
      λ b c. less→NoWorse spec.sensitivity_hint e b (least b c),
    )

-- Select returns ErrNoEligibleExecutor exactly if no listed entry, recovered if the time of its reset
-- has passed, is eligible.
pub select-none_iff :
    (r : Router) (spec : RoutingSpec) (now : List ℕ → ℤ)
    → ((select spec now r).0 ≡ none) ↔ (
        (listed : RegistryEntry)
        → In listed (list_entries r.catalog)
        → ¬ Eligible r spec (try_auto_recover (now listed.id) listed))
select-none_iff r spec now = (
  (λ h listed m ok. select_complete r spec now _ h (listed, m, refl, (eligible_iff r spec _).1 ok)),
  λ none_eligible. elim (Option-cases (select spec now r).0) [
    | inl h ↦ h
    | inr (e, h) ↦
        let ((listed, m, is, _), ok, _) = select_best r spec now e h in
        absurd (none_eligible listed m (subst (Eligible r spec) is ok))
  ],
)
