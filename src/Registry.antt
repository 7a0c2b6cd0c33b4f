-- ===== src/Registry.antt =====
-- The executor registry: internal/registry/types.go and catalog.go. The read-write lock makes each
-- operation one step. IDs and secret references are lists of bytes; instants and durations are
-- integers, in nanoseconds.
use agent_builder.Common.{
  Bool, Option, none, some, List, [], ◌∷◌, ◌++◌, ℕ, String, ◌==◌, if◌then◌else◌,
}
use agent_builder.Common.Int.{ℤ, pos, int_eq}
use agent_builder.Common.Map.{Map, lookup, insert}
use agent_builder.Common.Text.{text_eq}
pub mod Laws

pub data HarnessDriver : Type 0 where
  claude_cli : HarnessDriver
  codex_cli : HarnessDriver
  gemini_cli : HarnessDriver
  antigravity_cli : HarnessDriver
  ollama_native : HarnessDriver
  other_harness : String → HarnessDriver

-- HarnessDriver.String
unfoldable pub harness_name : HarnessDriver → String
harness_name claude_cli = "claude-cli"
harness_name codex_cli = "codex-cli"
harness_name gemini_cli = "gemini-cli"
harness_name antigravity_cli = "antigravity-cli"
harness_name ollama_native = "ollama-native"
harness_name (other_harness h) = h

pub record QuotaBudget : Type 0 where
  pub limit : ℤ
  pub window : ℤ

pub data AvailStatus : Type 0 where
  available : AvailStatus
  exhausted : AvailStatus
  other_status : String → AvailStatus

pub record Availability : Type 0 where
  pub status : AvailStatus
  pub reset_at : ℤ

pub record RegistryEntry : Type 0 where
  pub id : List ℕ
  pub harness : HarnessDriver
  pub capability_tier : ℤ
  pub cost_weight : ℤ
  pub model_id : String
  pub endpoint : String
  pub secret_ref : List ℕ
  pub budget : QuotaBudget
  pub usage : ℤ
  pub availability : Availability

unfoldable pub is_unlimited : RegistryEntry → Bool
unfolding int_eq
is_unlimited e = e.budget.limit == pos 0

pub record Catalog : Type 0 where
  pub entries : Map (List ℕ) RegistryEntry
  pub order : List (List ℕ)

unfoldable pub new_catalog : Catalog
new_catalog = record { entries = []; order = [] }

unfoldable pub registered : Option RegistryEntry → RegistryEntry → Catalog → Option Catalog
unfolding insert text_eq
registered (some _) e c = none
registered none e c =
    some (record { entries = insert e.id e c.entries; order = c.order ++ (e.id ∷ []) })

-- `none` is the panic on a duplicate ID.
unfoldable pub register_entry : RegistryEntry → Catalog → Option Catalog
unfolding lookup registered text_eq
register_entry e c = registered (lookup e.id c.entries) e c

unfoldable pub lookup_entry : List ℕ → Catalog → Option RegistryEntry
unfolding lookup text_eq
lookup_entry id c = if id == [] then none else lookup id c.entries

unfoldable pub updated : Option RegistryEntry → RegistryEntry → Catalog → Catalog
unfolding insert text_eq
updated none e c = c
updated (some _) e c = record { entries = insert e.id e c.entries; order = c.order }

unfoldable pub update_entry : RegistryEntry → Catalog → Catalog
unfolding lookup updated text_eq
update_entry e c = updated (lookup e.id c.entries) e c

-- RegistryEntry{}, which a Go map returns for a key that it does not hold.
abbrev pub zero_entry : RegistryEntry
zero_entry = record {
  id = [];
  harness = other_harness "";
  capability_tier = pos 0;
  cost_weight = pos 0;
  model_id = "";
  endpoint = "";
  secret_ref = [];
  budget = record { limit = pos 0; window = pos 0 };
  usage = pos 0;
  availability = record { status = other_status ""; reset_at = pos 0 };
}

unfoldable pub entry_or_zero : Option RegistryEntry → RegistryEntry
entry_or_zero none = zero_entry
entry_or_zero (some e) = e

unfoldable pub list_from : Map (List ℕ) RegistryEntry → List (List ℕ) → List RegistryEntry
unfolding lookup entry_or_zero text_eq
list_from entries [] = []
list_from entries (id ∷ order) = entry_or_zero (lookup id entries) ∷ list_from entries order

unfoldable pub list_entries : Catalog → List RegistryEntry
unfolding list_from
list_entries c = list_from c.entries c.order
