-- ===== src/Router/Tests.antt =====
-- The router over a local and a cloud entry.
use agent_builder.Common.{
  ◌≡◌, ◌≢◌, ◌↔◌, refl, ap, sym, ◌∙◌, ◌⊎◌, some, none, List, [], ◌∷◌, ℕ, nat_eq, string_eq, In, inl,
  inr, arith,
}
use agent_builder.Common.Int.{ℤ, pos, int_eq}
use agent_builder.Common.Map.{lookup}
use agent_builder.Common.Text.{codes, text_eq}
use agent_builder.Registry.{
  RegistryEntry, claude_cli, available, exhausted, AvailStatus, list_entries,
}
use agent_builder.Router.{Router, RoutingSpec, sensitive, select, on_gate_failure, try_auto_recover}
use agent_builder.Router.Select.{Candidate}
use agent_builder.Router.Best.{Eligible, NoWorse, select_best, select-none_iff}
use agent_builder.Router.Quota.{
  dispatch_call, rate_limit_call, perform_all, routing, loading, saving, perform_every,
  gate_failure_excludes,
}
use agent_builder.Router.Unlimited.{BackstopOpen, calls_keep-BackstopOpen}

abbrev entry : List ℕ → ℤ → RegistryEntry
entry id limit = record {
  id = id;
  harness = claude_cli;
  capability_tier = pos 2;
  cost_weight = pos 1;
  model_id = "m";
  endpoint = "";
  secret_ref = [];
  budget = record { limit = limit; window = pos 100 };
  usage = pos 0;
  availability = record { status = available; reset_at = pos 0 };
}

abbrev router : Router
router = record {
  catalog = record {
    entries =
        (codes "cloud", entry (codes "cloud") (pos 1))
        ∷ (codes "local", entry (codes "local") (pos 0))
        ∷ [];
    order = codes "cloud" ∷ codes "local" ∷ [];
  };
  escalated = [];
}

abbrev spec : RoutingSpec
spec = record { min_capability = pos 1; sensitivity_hint = sensitive }

abbrev now : List ℕ → ℤ
now _ = pos 50

local_selected : (select spec now router).0 ≡ some (entry (codes "local") (pos 0))
unfolding select
local_selected = refl

select_best_example :
    Candidate router spec now (list_entries router.catalog) (entry (codes "local") (pos 0))
    × Eligible router spec (entry (codes "local") (pos 0))
    × ((b : RegistryEntry)
        → Candidate router spec now (list_entries router.catalog) b
        → NoWorse sensitive (entry (codes "local") (pos 0)) b)
select_best_example = select_best router spec now (entry (codes "local") (pos 0)) local_selected

select-none_iff_example : ((select spec now router).0 ≡ none) ↔ (
    (listed : RegistryEntry)
    → In listed (list_entries router.catalog)
    → ¬ Eligible router spec (try_auto_recover (pos 50) listed))
select-none_iff_example = select-none_iff router spec now

cloud_selected :
    (select spec now (
      perform_every
        (routing (rate_limit_call (codes "local") (pos 50) (pos 5) none)
          ∷ loading none
          ∷ saving
          ∷ [])
        (on_gate_failure (codes "local") router))).0
    ≡ some (entry (codes "cloud") (pos 1))
unfolding select perform_every on_gate_failure
cloud_selected = refl

gate_failure_excludes_example : codes "cloud" ≢ codes "local"
gate_failure_excludes_example =
    gate_failure_excludes (codes "local")
      (routing (rate_limit_call (codes "local") (pos 50) (pos 5) none) ∷ loading none ∷ saving ∷ [])
      router spec now (entry (codes "cloud") (pos 1)) (tt, tt) cloud_selected

lookup_two :
    (id i j : List ℕ) (e f g : RegistryEntry)
    → lookup id ((i, f) ∷ (j, g) ∷ []) ≡ some e
    → (e ≡ f) ⊎ (e ≡ g)
unfolding lookup
lookup_two id i j e f g h = ground arith

backstop : BackstopOpen router.catalog
backstop id e found unlimited taken =
    elim (lookup_two id (codes "cloud") (codes "local") e (entry (codes "cloud") (pos 1))
      (entry (codes "local") (pos 0)) found) [
        | inl cloud ↦ open_entry (sym (ap status_of cloud) ∙ taken)
        | inr free ↦ open_entry (sym (ap status_of free) ∙ taken)
      ]
  where
    status_of : RegistryEntry → AvailStatus
    status_of x = x.availability.status

    open_entry : available ≡ exhausted → ⊥
    open_entry h = cc

calls_keep-BackstopOpen_example :
    BackstopOpen
      (perform_all
        (dispatch_call (codes "cloud") (pos 7) ∷ dispatch_call (codes "local") (pos 8) ∷ [])
        router).catalog
calls_keep-BackstopOpen_example =
    calls_keep-BackstopOpen
      (dispatch_call (codes "cloud") (pos 7) ∷ dispatch_call (codes "local") (pos 8) ∷ []) router
      backstop
