-- ===== src/Registry/Laws.antt =====
-- What a lookup finds in the catalog after an update.
use agent_builder.Common.{
  ◌≡◌, Option, none, some, List, ℕ, ◌==◌, arith, inl, inr, Bool-cases, ◌⊎◌, ◌∙◌, sym,
}
use agent_builder.Common.Map.{lookup, lookup-insert}
use agent_builder.Common.Text.{text_eq}
use agent_builder.Registry.{RegistryEntry, Catalog, updated, update_entry}

updated-lookup :
    (found : Option RegistryEntry) (e : RegistryEntry) (c : Catalog) (id : List ℕ)
    (f : RegistryEntry)
    → lookup id (updated found e c).entries ≡ some f
    → (lookup id c.entries ≡ some f) ⊎ (f ≡ e)
unfolding updated
updated-lookup none e c id f h = inl h
updated-lookup (some _) e c id f h =
    let k = sym (lookup-insert id e.id e c.entries) ∙ h in
    elim (Bool-cases (e.id == id)) [
      | inl same ↦ inr (ground arith)
      | inr other ↦ inl (ground arith)
    ]

-- What is found after an update was there before it, or is the new entry.
pub lookup-update_entry :
    (e : RegistryEntry) (c : Catalog) (id : List ℕ) (f : RegistryEntry)
    → lookup id (update_entry e c).entries ≡ some f
    → (lookup id c.entries ≡ some f) ⊎ (f ≡ e)
unfolding update_entry
lookup-update_entry e c id f h = updated-lookup (lookup e.id c.entries) e c id f h
