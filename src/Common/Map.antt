-- ===== src/Common/Map.antt =====
-- Go's maps as association lists: `m[k]`, `m[k] = v`, `delete(m, k)`, and the loop that deletes
-- while it ranges over the map. No modelled code depends on the order of a range over a map.
use mathlib.Core.Path.{◌≡◌, refl}
use mathlib.Core.Bool.{Bool, false}
use mathlib.Core.Option.{Option, none, some}
use mathlib.Core.List.{List, [], ◌∷◌}
use native.Mathlib.Omega.{arith}
use agent_builder.Common.Equality.{Eq, ◌==◌}
use agent_builder.Common.Tests.{if◌then◌else◌}

abbrev pub Map {ℓ κ} : Type ℓ → Type κ → Type (ℓ ⊔ κ)
Map K V = List (K × V)

module _ {ℓ κ} {K : Type ℓ} {V : Type κ} ⦃e : Eq K⦄ where
  unfoldable pub lookup : K → Map K V → Option V
  lookup k [] = none
  lookup k ((j, v) ∷ m) = if j == k then some v else lookup k m

  unfoldable pub insert : K → V → Map K V → Map K V
  insert k v [] = (k, v) ∷ []
  insert k v ((j, w) ∷ m) = if j == k then (k, v) ∷ m else (j, w) ∷ insert k v m

  unfoldable pub delete : K → Map K V → Map K V
  delete k [] = []
  delete k ((j, w) ∷ m) = let rest = delete k m in if j == k then rest else (j, w) ∷ rest

  pub lookup-nil : (k : K) → lookup k [] ≡ none
  unfolding lookup
  lookup-nil k = refl

  pub lookup-insert :
      (j k : K) (v : V) (m : Map K V)
      → lookup j (insert k v m) ≡ (if k == j then some v else lookup j m)
  unfolding lookup insert
  lookup-insert j k v [] = ground arith
  lookup-insert j k v ((i, w) ∷ m) = ground (arith, lookup-insert j k v m)

  pub lookup-delete :
      (j k : K) (m : Map K V) → lookup j (delete k m) ≡ (if k == j then none else lookup j m)
  unfolding lookup delete
  lookup-delete j k [] = ground arith
  lookup-delete j k ((i, w) ∷ m) = ground (arith, lookup-delete j k m)

-- for k, v := range m { if drop(v) { delete(m, k) } }
unfoldable pub prune {ℓ κ} : {K : Type ℓ} {V : Type κ} → (V → Bool) → Map K V → Map K V
prune drop [] = []
prune drop ((j, w) ∷ m) = let rest = prune drop m in if drop w then rest else (j, w) ∷ rest

module _ {ℓ κ} {K : Type ℓ} {V : Type κ} ⦃e : Eq K⦄ where
  -- An entry that is not dropped is still found.
  pub lookup-prune_keep :
      (drop : V → Bool) (k : K) (m : Map K V) (v : V)
      → lookup k m ≡ some v
      → drop v ≡ false
      → lookup k (prune drop m) ≡ some v
  unfolding lookup prune
  lookup-prune_keep drop k [] v h d = ground arith
  lookup-prune_keep drop k ((j, w) ∷ m) v h d = ground (arith, lookup-prune_keep drop k m v)

  -- What is found after a pruning is a value that was not dropped.
  pub lookup-prune_kept :
      (drop : V → Bool) (k : K) (m : Map K V) (v : V)
      → lookup k (prune drop m) ≡ some v
      → drop v ≡ false
  unfolding lookup prune
  lookup-prune_kept drop k [] v h = ground arith
  lookup-prune_kept drop k ((j, w) ∷ m) v h = ground (arith, lookup-prune_kept drop k m v)
