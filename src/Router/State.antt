-- ===== src/Router/State.antt =====
-- The quota state on disk: `SaveState` and `LoadState` of internal/router/router.go. The document is
-- what encoding/json writes and reads: the entries in the order in which the range over them meets them,
-- `none` where the file has no entries.
use agent_builder.Common.{Bool, true, false, Option, none, some, List, [], ◌∷◌, ℕ}
use agent_builder.Common.Int.{ℤ}
use agent_builder.Common.Map.{Map, insert}
use agent_builder.Common.Text.{text_eq}
use agent_builder.Registry.{
  RegistryEntry, AvailStatus, available, exhausted, other_status, lookup_entry, update_entry,
  list_entries,
}
use agent_builder.Router.{Router, is_exhausted, with_quota}
pub mod Rounds
pub mod Laws
mod Tests

pub record EntryState : Type 0 where
  pub usage : ℤ
  pub was_exhausted : Bool
  pub reset_at : ℤ
  pub avail_status : AvailStatus

abbrev pub QuotaState : Type 0
QuotaState = Map (List ℕ) EntryState

unfoldable pub saved_entry : RegistryEntry → EntryState
unfolding is_exhausted
saved_entry e = record {
  usage = e.usage;
  was_exhausted = is_exhausted e.availability.status;
  reset_at = e.availability.reset_at;
  avail_status = e.availability.status;
}

unfoldable pub save_entries : List RegistryEntry → QuotaState → QuotaState
unfolding insert saved_entry text_eq
save_entries [] state = state
save_entries (e ∷ es) state = save_entries es (insert e.id (saved_entry e) state)

unfoldable pub save_state : Router → QuotaState
unfolding save_entries list_entries
save_state r = save_entries (list_entries r.catalog) []

abbrev restored : EntryState → AvailStatus → RegistryEntry → Router → Option Router
restored saved status e r = some (record {
  catalog = update_entry (with_quota saved.usage status saved.reset_at e) r.catalog;
  escalated = r.escalated;
})

-- One round of the loop behind the lookup; `none` is the error on an unknown status.
unfoldable pub load_found : Option RegistryEntry → EntryState → AvailStatus → Router → Option Router
unfolding with_quota update_entry
load_found none saved status r = some r
load_found (some e) saved available r = restored saved available e r
load_found (some e) saved exhausted r = restored saved exhausted e r
load_found (some e) saved (other_status _) r = none

-- Goes on with the rest; on an error, what was loaded so far stays.
unfoldable pub continue : Option Router → Router → (Router → Bool × Router) → Bool × Router
continue none r rest = (false, r)
continue (some r') r rest = rest r'

unfoldable pub load_entries : List (List ℕ × EntryState) → Router → Bool × Router
unfolding lookup_entry load_found continue
load_entries [] r = (true, r)
load_entries ((id, saved) ∷ entries) r =
    continue (load_found (lookup_entry id r.catalog) saved saved.avail_status r) r
      (load_entries entries)

-- `none` is a file that cannot be read or parsed. The result is true where no error is returned.
unfoldable pub load_state : Option (Option (List (List ℕ × EntryState))) → Router → Bool × Router
unfolding load_entries
load_state none r = (false, r)
load_state (some none) r = (false, r)
load_state (some (some entries)) r = load_entries entries r
