-- ===== src/Router/State/Tests.antt =====
-- A state that was saved while an entry had a limit, loaded after the limit was taken away.
use agent_builder.Common.{
  ◌≡◌, refl, true, some, List, [], ◌∷◌, ℕ, nat_eq, ◌==◌, inl, inr, Bool-cases, eq_of_==, ne_of_==,
  arith,
}
use agent_builder.Common.Int.{pos, int_eq}
use agent_builder.Common.Map.{lookup}
use agent_builder.Common.Text.{codes, text_eq}
use agent_builder.Registry.{
  RegistryEntry, claude_cli, available, exhausted, is_unlimited, lookup_entry,
}
use agent_builder.Router.{Router}
use agent_builder.Router.State.{EntryState, save_state, saved_entry, load_state}
use agent_builder.Router.State.Laws.{load_exhausts_unlimited}

abbrev entry : RegistryEntry
entry = record {
  id = codes "local";
  harness = claude_cli;
  capability_tier = pos 2;
  cost_weight = pos 1;
  model_id = "m";
  endpoint = "";
  secret_ref = [];
  budget = record { limit = pos 0; window = pos 100 };
  usage = pos 0;
  availability = record { status = available; reset_at = pos 0 };
}

abbrev router : Router
router = record {
  catalog = record { entries = (codes "local", entry) ∷ []; order = codes "local" ∷ [] };
  escalated = [];
}

abbrev saved : EntryState
saved = record { usage = pos 3; was_exhausted = true; reset_at = pos 900; avail_status = exhausted }

saved_lem : save_state router ≡ (codes "local", saved_entry entry) ∷ []
unfolding save_state
saved_lem = refl

found_lem : lookup_entry (codes "local") router.catalog ≡ some entry
unfolding lookup_entry
found_lem = refl

abbrev file : List (List ℕ × EntryState)
file =
    (codes "gone", record saved { avail_status = available })
    ∷ (codes "local", saved)
    ∷ (codes "cloud", saved)
    ∷ []

keyed_lem :
    (id : List ℕ) (e : RegistryEntry) → lookup id router.catalog.entries ≡ some e → e.id ≡ id
unfolding lookup
keyed_lem id e h = elim (Bool-cases (codes "local" == id)) [
  | inl same ↦ let own = eq_of_== (codes "local") id same in ground arith
  | inr other ↦ absurd (ground arith)
]

load_exhausts_unlimited_example :
    ((load_state (some (some file)) router).0 ≡ true)
    × ((after : RegistryEntry) × (lookup_entry
            (codes "local")
            (load_state (some (some file)) router).1.catalog
          ≡ some after)
        × (is_unlimited after ≡ true)
        × (after.availability.status ≡ exhausted))
unfolding is_unlimited int_eq text_eq
load_exhausts_unlimited_example =
    load_exhausts_unlimited (codes "local") saved entry router file keyed_lem found_lem refl refl (
      inr (
        ne_of_== (codes "gone") (codes "local") refl,
        inl refl,
        inl (refl, refl, (ne_of_== (codes "cloud") (codes "local") refl, inr refl, tt)),
      ))
