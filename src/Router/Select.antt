-- ===== src/Router/Select.antt =====
-- How `Select` finds its entry: the loop keeps the candidates, and the sort puts a least one first.
use agent_builder.Common.{
  some_inj, true_not_false, ◌≡◌, ◌⊎◌, ◌↔◌, refl, sym, ap, subst, ◌∙◌, true, false, some, none, List,
  [], ◌∷◌, ℕ, arith, inl, inr, Bool-cases, All, In,
}
use agent_builder.Common.Int.{ℤ, int_eq}
use agent_builder.Registry.{RegistryEntry, Catalog, list_entries}
use agent_builder.Router.{
  Router, RoutingSpec, Sensitivity, less, insert_stable, sort_stable, first, scan, select, eligible,
  try_auto_recover, recover_in_catalog,
}
use agent_builder.Router.Order.{less-asym, less_trans}

less_irrefl : (hint : Sensitivity) (a : RegistryEntry) → less hint a a ≡ false
less_irrefl hint a = elim (Bool-cases (less hint a a)) [ inl h ↦ less-asym hint a a h | inr h ↦ h ]

-- No entry of the list is before `e`.
abbrev Least : Sensitivity → RegistryEntry → List RegistryEntry → Type 0
Least hint e = All (λ b. less hint b e ≡ false)

Least-insert :
    (hint : Sensitivity) (e a : RegistryEntry) (es : List RegistryEntry)
    → less hint a e ≡ false
    → Least hint e es
    → Least hint e (insert_stable hint a es)
unfolding insert_stable
Least-insert hint e a [] h k = (h, tt)
Least-insert hint e a (b ∷ es) h k = elim (Bool-cases (less hint b a)) [
  | inl before ↦ rw before (k.0, Least-insert hint e a es h k.1)
  | inr other ↦ rw other (h, k)
]

Least-before :
    (hint : Sensitivity) (a b : RegistryEntry) (es : List RegistryEntry)
    → less hint b a ≡ false
    → Least hint b es
    → Least hint a es
Least-before hint a b [] h k = tt
Least-before hint a b (c ∷ es) h k = (less_trans hint c b a k.0 h, Least-before hint a b es h k.1)

abbrev FirstLeast : Sensitivity → List RegistryEntry → Type 0
FirstLeast hint [] = Unit
FirstLeast hint (e ∷ es) = Least hint e (e ∷ es)

insert-FirstLeast :
    (hint : Sensitivity) (a : RegistryEntry) (es : List RegistryEntry)
    → FirstLeast hint es
    → FirstLeast hint (insert_stable hint a es)
unfolding insert_stable
insert-FirstLeast hint a [] h = (less_irrefl hint a, tt)
insert-FirstLeast hint a (b ∷ es) h = elim (Bool-cases (less hint b a)) [
  | inl before ↦ rw before (h.0, Least-insert hint b a es (less-asym hint b a before) h.1)
  | inr other ↦ rw other (less_irrefl hint a, (other, Least-before hint a b es other h.1))
]

sort-FirstLeast :
    (hint : Sensitivity) (es : List RegistryEntry) → FirstLeast hint (sort_stable hint es)
unfolding sort_stable
sort-FirstLeast hint [] = tt
sort-FirstLeast hint (a ∷ es) =
    insert-FirstLeast hint a (sort_stable hint es) (sort-FirstLeast hint es)

In-insert :
    (hint : Sensitivity) (e a : RegistryEntry) (es : List RegistryEntry)
    → In e (insert_stable hint a es) ↔ ((e ≡ a) ⊎ In e es)
unfolding insert_stable
In-insert hint e a [] = ((λ h. h), λ h. h)
In-insert hint e a (b ∷ es) = elim (Bool-cases (less hint b a)) [
  | inl before ↦ rw before (ground (arith, In-insert hint e a es))
  | inr other ↦ rw other ((λ h. h), λ h. h)
]

In-sort :
    (hint : Sensitivity) (e : RegistryEntry) (es : List RegistryEntry)
    → In e (sort_stable hint es) ↔ In e es
unfolding sort_stable
In-sort hint e [] = ((λ h. h), λ h. h)
In-sort hint e (a ∷ es) =
    ground (arith, In-insert hint e a (sort_stable hint es), In-sort hint e es)

-- An entry that is listed, recovered if its time has come, and eligible.
abbrev pub Candidate :
    Router → RoutingSpec → (List ℕ → ℤ) → List RegistryEntry → RegistryEntry → Type 0
Candidate r spec now es e =
    (listed : RegistryEntry) × In listed es
    × (e ≡ try_auto_recover (now listed.id) listed)
    × (eligible r spec e ≡ true)

Candidate-later :
    (r : Router) (spec : RoutingSpec) (now : List ℕ → ℤ) (x : RegistryEntry)
    (es : List RegistryEntry) (e : RegistryEntry)
    → Candidate r spec now es e
    → Candidate r spec now (x ∷ es) e
Candidate-later r spec now x es e (l, m, is, ok) = (l, inr m, is, ok)

scan_iff :
    (r : Router) (spec : RoutingSpec) (now : List ℕ → ℤ) (es : List RegistryEntry) (c : Catalog)
    (e : RegistryEntry)
    → In e (scan r spec now es c).0 ↔ Candidate r spec now es e
unfolding scan
scan_iff r spec now [] c e = ((λ h. elim h [ ]), λ (_, m, _, _). elim m [ ])
scan_iff r spec now (x ∷ es) c e =
    let tail = scan_iff r spec now es (recover_in_catalog (now x.id) x c) e in
    elim (Bool-cases (eligible r spec (try_auto_recover (now x.id) x))) [
      | inl good ↦ rw good (
        (λ h. elim h [
          | inl here ↦ (x, inl refl, here, ap (eligible r spec) here ∙ good)
          | inr later ↦ Candidate-later r spec now x es e (tail.0 later)
        ]),
        λ (l, m, is, ok). elim m [
          | inl here ↦ inl (is ∙ ap (λ (y : RegistryEntry). try_auto_recover (now y.id) y) here)
          | inr later ↦ inr (tail.1 (l, later, is, ok))
        ],
      )
      | inr bad ↦ rw bad (
        (λ h. Candidate-later r spec now x es e (tail.0 h)),
        λ (l, m, is, ok). elim m [
          | inl here ↦
              let e' = is ∙ ap (λ (y : RegistryEntry). try_auto_recover (now y.id) y) here in
              absurd (true_not_false (sym ok ∙ ap (eligible r spec) e' ∙ bad))
          | inr later ↦ tail.1 (l, later, is, ok)
        ],
      )
    ]

sorted_first :
    (hint : Sensitivity) (es : List RegistryEntry)
    → FirstLeast hint es
    → (e : RegistryEntry) → first es ≡ some e
    → In e es × Least hint e es
sorted_first hint [] h e p = cc
sorted_first hint (a ∷ es) h e p =
    let same : a ≡ e = some_inj p in (inl (sym same), subst (λ x. Least hint x (a ∷ es)) same h)

Least-In :
    (hint : Sensitivity) (e b : RegistryEntry) (es : List RegistryEntry)
    → Least hint e es
    → In b es
    → less hint b e ≡ false
Least-In hint e b [] h m = elim m [ ]
Least-In hint e b (x ∷ es) h m = elim m [
  | inl here ↦ ap (λ y. less hint y e) here ∙ h.0
  | inr later ↦ Least-In hint e b es h.1 later
]

-- An entry that Select returns is a candidate, and none is before it.
pub select-least :
    (r : Router) (spec : RoutingSpec) (now : List ℕ → ℤ) (e : RegistryEntry)
    → (select spec now r).0 ≡ some e
    → Candidate r spec now (list_entries r.catalog) e
      × ((b : RegistryEntry)
          → Candidate r spec now (list_entries r.catalog) b
          → less spec.sensitivity_hint b e ≡ false)
unfolding select
select-least r spec now e h =
    let listed = list_entries r.catalog in
    let scanned = (scan r spec now listed r.catalog).0 in
    let hint = spec.sensitivity_hint in
    let (m, least) =
      sorted_first hint (sort_stable hint scanned) (sort-FirstLeast hint scanned) e h in
    (
      (scan_iff r spec now listed r.catalog e).0 ((In-sort hint e scanned).0 m),
      λ b candidate.
          Least-In hint e b (sort_stable hint scanned) least
            ((In-sort hint b scanned).1 ((scan_iff r spec now listed r.catalog b).1 candidate)),
    )

no_first : (es : List RegistryEntry) → first es ≡ none → (b : RegistryEntry) → In b es → ⊥
no_first [] h b m = elim m [ ]
no_first (x ∷ es) h b m = cc

-- Select returns ErrNoEligibleExecutor only if no listed entry is a candidate.
pub select_complete :
    (r : Router) (spec : RoutingSpec) (now : List ℕ → ℤ) (b : RegistryEntry)
    → (select spec now r).0 ≡ none
    → ¬ Candidate r spec now (list_entries r.catalog) b
unfolding select
select_complete r spec now b h candidate =
    let listed = list_entries r.catalog in
    let scanned = (scan r spec now listed r.catalog).0 in
    no_first (sort_stable spec.sensitivity_hint scanned) h b (
      (In-sort spec.sensitivity_hint b scanned).1
        ((scan_iff r spec now listed r.catalog b).1 candidate))
