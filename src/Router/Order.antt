-- ===== src/Router/Order.antt =====
-- The order of `Select`: `less` is a strict weak order, so that the stable sort puts a minimum first.
use agent_builder.Common.{◌≡◌, refl, true, false, List, [], ◌∷◌, ℕ, arith, nat_eq}
use agent_builder.Common.Int.{ℤ, int_eq, lt_int, int_laws, ℤ_antisym, not_lt_int→le}
use agent_builder.Registry.{RegistryEntry}
use agent_builder.Router.{Sensitivity, sensitive, unhinted, lt_text, less_tied, less}

lt_text-asym : (s t : List ℕ) → lt_text s t ≡ true → lt_text t s ≡ false
unfolding lt_text
lt_text-asym s [] h = cc
lt_text-asym [] (c ∷ t) h = refl
lt_text-asym (b ∷ s) (c ∷ t) h = ground (arith, lt_text-asym s t)

-- Where s is not before t and t is not before u, s is not before u.
lt_text_trans : (s t u : List ℕ) → lt_text s t ≡ false → lt_text t u ≡ false → lt_text s u ≡ false
unfolding lt_text
lt_text_trans s t [] h k = refl
lt_text_trans s [] (d ∷ u) h k = cc
lt_text_trans [] (c ∷ t) (d ∷ u) h k = cc
lt_text_trans (b ∷ s) (c ∷ t) (d ∷ u) h k = ground (arith, lt_text_trans s t u)

less_tied-asym :
    (hint : Sensitivity) (a b : RegistryEntry)
    → less_tied hint a b ≡ true
    → less_tied hint b a ≡ false
unfolding less_tied
less_tied-asym unhinted a b h = lt_text-asym a.id b.id h
less_tied-asym sensitive a b h = ground (arith, lt_text-asym a.id b.id)

less_tied_trans :
    (hint : Sensitivity) (a b c : RegistryEntry)
    → less_tied hint a b ≡ false
    → less_tied hint b c ≡ false
    → less_tied hint a c ≡ false
unfolding less_tied
less_tied_trans unhinted a b c h k = lt_text_trans a.id b.id c.id h k
less_tied_trans sensitive a b c h k = ground (arith, lt_text_trans a.id b.id c.id)

lt_int-asym : (x y : ℤ) → lt_int x y ≡ true → lt_int y x ≡ false
lt_int-asym x y h = grind int_laws

lt_int_trans : (x y z : ℤ) → lt_int x y ≡ false → lt_int y z ≡ false → lt_int x z ≡ false
lt_int_trans x y z h k = grind int_laws

lt_int_irrefl : (x : ℤ) → lt_int x x ≡ false
lt_int_irrefl x = grind int_laws

lt_int-total : (x y : ℤ) → lt_int x y ≡ false → lt_int y x ≡ false → x ≡ y
lt_int-total x y h k = ℤ_antisym x y (not_lt_int→le y x k) (not_lt_int→le x y h)

pub less-asym :
    (hint : Sensitivity) (a b : RegistryEntry) → less hint a b ≡ true → less hint b a ≡ false
unfolding less
less-asym hint a b h =
    ground (arith, less_tied-asym hint a b, lt_int-asym a.cost_weight b.cost_weight)

pub less_trans :
    (hint : Sensitivity) (a b c : RegistryEntry)
    → less hint a b ≡ false
    → less hint b c ≡ false
    → less hint a c ≡ false
unfolding less
less_trans hint a b c h k = ground (
  arith,
  less_tied_trans hint a b c,
  lt_int_trans a.cost_weight b.cost_weight c.cost_weight,
  lt_int-total a.cost_weight b.cost_weight,
  lt_int-asym b.cost_weight a.cost_weight,
)
