-- ===== src/Router/State/Laws.antt =====
-- What a loaded state does to an entry.
use agent_builder.Common.{
  ◌≡◌, refl, sym, ap, ◌∙◌, true, some, List, [], ◌∷◌, ℕ, arith, false, ◌==◌, inl, inr,
}
use agent_builder.Common.Map.{lookup}
use agent_builder.Common.Text.{text_eq}
use agent_builder.Registry.{
  RegistryEntry, Catalog, exhausted, is_unlimited, lookup_entry, update_entry,
}
use agent_builder.Router.{Router, with_quota}
use agent_builder.Router.State.{EntryState, load_found, continue, load_entries, load_state}
use agent_builder.Router.State.Rounds.{
  update_entry-found, found_in_map, IsKeyed, IsKnown, AreOthers, HoldsOnce, taken, load_found-known,
  taken-IsKeyed, round_other,
}

next-entries :
    (id other : List ℕ) (saved : EntryState) (entries : List (List ℕ × EntryState)) (r s : Router)
    → load_found (lookup_entry other r.catalog) saved saved.avail_status r ≡ some s
    → load_entries ((other, saved) ∷ entries) r ≡ load_entries entries s
unfolding load_entries continue
next-entries id other saved entries r s e = rw e refl

load_others :
    (id : List ℕ) (entries : List (List ℕ × EntryState)) (r : Router)
    → IsKeyed r.catalog
    → AreOthers id entries
    → ((load_entries entries r).0 ≡ true)
      × (lookup id (load_entries entries r).1.catalog.entries ≡ lookup id r.catalog.entries)
unfolding load_entries
load_others id [] r keyed others = (refl, refl)
load_others id ((other, saved) ∷ entries) r keyed (apart, known, others) =
    let (s, loaded, same, keyed') =
      round_other id other saved r (lookup_entry other r.catalog) refl apart known keyed in
    let (fine, kept) = load_others id entries s keyed' others in
    rw (next-entries id other saved entries r s loaded) (fine, kept ∙ same)

taken-found :
    (id : List ℕ) (state : EntryState) (e : RegistryEntry) (r : Router)
    → e.id ≡ id
    → lookup id r.catalog.entries ≡ some e
    → lookup id (taken state e r).catalog.entries
      ≡ some (with_quota state.usage state.avail_status state.reset_at e)
unfolding taken with_quota
taken-found id state e r own found =
    let t = with_quota state.usage state.avail_status state.reset_at e in
    let there = ap (λ i. lookup i r.catalog.entries) own ∙ found in
    ap (λ i. lookup i (update_entry t r.catalog).entries) (sym own)
    ∙ update_entry-found t e r.catalog there

load_own :
    (id : List ℕ) (state : EntryState) (e : RegistryEntry) (r : Router)
    (entries : List (List ℕ × EntryState))
    → IsKeyed r.catalog
    → lookup_entry id r.catalog ≡ some e
    → IsKnown state
    → AreOthers id entries
    → ((load_entries ((id, state) ∷ entries) r).0 ≡ true)
      × (lookup id (load_entries ((id, state) ∷ entries) r).1.catalog.entries
          ≡ some (with_quota state.usage state.avail_status state.reset_at e))
load_own id state e r entries keyed found known others =
    let there = found_in_map id e r.catalog found in
    let loaded =
      ap (λ x. load_found x state state.avail_status r) found ∙ load_found-known state e r known in
    let (fine, kept) =
      load_others id entries (taken state e r) (taken-IsKeyed state e r keyed) others in
    rw (next-entries id id state entries r (taken state e r) loaded)
      (fine, kept ∙ taken-found id state e r (keyed id e there) there)

named-found :
    (id : List ℕ) (e : RegistryEntry) (c : Catalog)
    → (id == []) ≡ false
    → lookup id c.entries ≡ some e
    → lookup_entry id c ≡ some e
unfolding lookup_entry
named-found id e c named found = rw named found

load_once :
    (id : List ℕ) (state : EntryState) (e : RegistryEntry) (r : Router)
    (entries : List (List ℕ × EntryState))
    → IsKeyed r.catalog
    → lookup id r.catalog.entries ≡ some e
    → (id == []) ≡ false
    → IsKnown state
    → HoldsOnce id state entries
    → ((load_entries entries r).0 ≡ true)
      × (lookup id (load_entries entries r).1.catalog.entries
          ≡ some (with_quota state.usage state.avail_status state.reset_at e))
load_once id state e r [] keyed found named known holds = absurd holds
load_once id state e r ((other, saved) ∷ entries) keyed found named known
      (inr (apart, known', holds)) =
    let (s, loaded, same, keyed') =
      round_other id other saved r (lookup_entry other r.catalog) refl apart known' keyed in
    rw (next-entries id other saved entries r s loaded)
      (load_once id state e s entries keyed' (same ∙ found) named known holds)
load_once id state e r ((other, saved) ∷ entries) keyed found named known
      (inl (same, state_is, others)) =
    rw (same, state_is)
      (load_own id state e r entries keyed (named-found id e r.catalog named found) known others)

named_lem :
    (id : List ℕ) (e : RegistryEntry) (c : Catalog)
    → lookup_entry id c ≡ some e
    → (id == []) ≡ false
unfolding lookup_entry
named_lem id e c h = ground arith

-- A state of statuses that LoadState knows, which holds the ID of an unlimited entry of the catalog once,
-- with the exhausted status, is loaded without an error, and leaves that entry exhausted and
-- unlimited, if the catalog has its entries under their own IDs.
pub load_exhausts_unlimited :
    (id : List ℕ) (state : EntryState) (e : RegistryEntry) (r : Router)
    (entries : List (List ℕ × EntryState))
    → IsKeyed r.catalog
    → lookup_entry id r.catalog ≡ some e
    → is_unlimited e ≡ true
    → state.avail_status ≡ exhausted
    → HoldsOnce id state entries
    → ((load_state (some (some entries)) r).0 ≡ true)
      × ((after : RegistryEntry) × (lookup_entry id (load_state (some (some entries)) r).1.catalog
            ≡ some after)
          × (is_unlimited after ≡ true)
          × (after.availability.status ≡ exhausted))
unfolding load_state
load_exhausts_unlimited id state e r entries keyed found unlimited used_up holds =
    let named = named_lem id e r.catalog found in
    let (fine, there) =
      load_once id state e r entries keyed (found_in_map id e r.catalog found) named (inr used_up)
        holds in
    let after = with_quota state.usage state.avail_status state.reset_at e in
    (
      fine,
      (
        after,
        named-found id after (load_entries entries r).1.catalog named there,
        (unfold with_quota is_unlimited in unlimited),
        (unfold with_quota in used_up),
      ),
    )
