-- ===== src/Router/State/Rounds.antt =====
-- One round of the loop of LoadState, on the entries that the catalog holds.
use agent_builder.Common.{
  ◌≡◌, refl, sym, ◌∙◌, Option, none, some, List, [], ◌∷◌, ℕ, ==-refl, arith, false, ◌==◌, ◌≢◌, ◌⊎◌,
  inl, inr, Bool-cases, eq_of_==,
}
use agent_builder.Common.Map.{lookup, lookup-insert}
use agent_builder.Common.Text.{text_eq}
use agent_builder.Registry.{
  RegistryEntry, Catalog, available, exhausted, lookup_entry, updated, update_entry,
}
use agent_builder.Router.{Router, with_quota}
use agent_builder.Router.State.{EntryState, load_found}

pub updated-found :
    (found : Option RegistryEntry) (e f : RegistryEntry) (c : Catalog)
    → found ≡ some f
    → lookup e.id (updated found e c).entries ≡ some e
unfolding updated
updated-found none e f c h = cc
updated-found (some _) e f c h = lookup-insert e.id e.id e c.entries ∙ (rw (==-refl e.id) refl)

pub update_entry-found :
    (e f : RegistryEntry) (c : Catalog)
    → lookup e.id c.entries ≡ some f
    → lookup e.id (update_entry e c).entries ≡ some e
unfolding update_entry
update_entry-found e f c h = updated-found (lookup e.id c.entries) e f c h

pub found_in_map :
    (id : List ℕ) (e : RegistryEntry) (c : Catalog)
    → lookup_entry id c ≡ some e
    → lookup id c.entries ≡ some e
unfolding lookup_entry
found_in_map id e c h = ground arith

pub updated-other :
    (found : Option RegistryEntry) (e : RegistryEntry) (id : List ℕ) (c : Catalog)
    → (e.id == id) ≡ false
    → lookup id (updated found e c).entries ≡ lookup id c.entries
unfolding updated
updated-other none e id c other = refl
updated-other (some _) e id c other = lookup-insert id e.id e c.entries ∙ rw other refl

-- Every entry of the catalog stands under its own ID.
abbrev pub IsKeyed : Catalog → Type 0
IsKeyed c = (id : List ℕ) (e : RegistryEntry) → lookup id c.entries ≡ some e → e.id ≡ id

-- LoadState knows the status.
abbrev pub IsKnown : EntryState → Type 0
IsKnown saved = (saved.avail_status ≡ available) ⊎ (saved.avail_status ≡ exhausted)

-- Known states, of other entries than the one with the ID.
abbrev pub AreOthers : List ℕ → List (List ℕ × EntryState) → Type 0
AreOthers id [] = Unit
AreOthers id ((other, saved) ∷ entries) = (other ≢ id) × IsKnown saved × AreOthers id entries

-- The state of the entry with the ID, once, and known states of others around it.
abbrev pub HoldsOnce : List ℕ → EntryState → List (List ℕ × EntryState) → Type 0
HoldsOnce id state [] = ⊥
HoldsOnce id state ((other, saved) ∷ entries) =
    ((other ≡ id) × (saved ≡ state) × AreOthers id entries)
    ⊎ ((other ≢ id) × IsKnown saved × HoldsOnce id state entries)

-- What the loading of a state with a known status does to an entry that is found.
unfoldable pub taken : EntryState → RegistryEntry → Router → Router
taken saved e r = record r {
  catalog = update_entry (with_quota saved.usage saved.avail_status saved.reset_at e) r.catalog;
}

pub load_found-known :
    (saved : EntryState) (e : RegistryEntry) (r : Router)
    → IsKnown saved
    → load_found (some e) saved saved.avail_status r ≡ some (taken saved e r)
unfolding load_found taken
load_found-known saved e r (inl open_again) = rw open_again refl
load_found-known saved e r (inr used_up) = rw used_up refl

updated-IsKeyed :
    (found : Option RegistryEntry) (e : RegistryEntry) (c : Catalog)
    → IsKeyed c
    → IsKeyed (updated found e c)
unfolding updated
updated-IsKeyed none e c keyed = keyed
updated-IsKeyed (some _) e c keyed = λ id f h.
    let k = sym (lookup-insert id e.id e c.entries) ∙ h in
    elim (Bool-cases (e.id == id)) [
      | inl same ↦ let own = eq_of_== e.id id same in ground arith
      | inr other ↦ keyed id f (ground arith)
    ]

pub taken-IsKeyed :
    (saved : EntryState) (e : RegistryEntry) (r : Router)
    → IsKeyed r.catalog
    → IsKeyed (taken saved e r).catalog
unfolding taken update_entry with_quota
taken-IsKeyed saved e r keyed =
    updated-IsKeyed (lookup e.id r.catalog.entries)
      (with_quota saved.usage saved.avail_status saved.reset_at e) r.catalog keyed

-- One round of the loop for another entry: no error, and the entry with the ID is as it was.
pub round_other :
    (id other : List ℕ) (saved : EntryState) (r : Router) (found : Option RegistryEntry)
    → lookup_entry other r.catalog ≡ found
    → other ≢ id
    → IsKnown saved
    → IsKeyed r.catalog
    → (s : Router) × (load_found found saved saved.avail_status r ≡ some s)
      × (lookup id s.catalog.entries ≡ lookup id r.catalog.entries)
      × IsKeyed s.catalog
unfolding taken update_entry with_quota load_found
round_other id other saved r none e apart known keyed = (r, refl, refl, keyed)
round_other id other saved r (some found) e apart known keyed =
    let own = keyed other found (found_in_map other found r.catalog e) in
    (
      taken saved found r,
      load_found-known saved found r known,
      updated-other (lookup found.id r.catalog.entries) _ id r.catalog (ground (arith, own, apart)),
      taken-IsKeyed saved found r keyed,
    )
