-- ===== src/Router.antt =====
-- The model router: internal/router/router.go. The clock and the cooldown are arguments of the calls
-- that read them; `now` gives the reading of the clock while `Select` looks at the entry of an ID.
use agent_builder.Common.{
  Bool, true, false, not, Option, none, some, List, [], ◌∷◌, ℕ, ltb, ◌==◌, ◌&&◌, nat_eq,
  if◌then◌else◌,
}
use agent_builder.Common.Int.{ℤ, pos, ◌+ℤ◌, int_eq, lt_int}
use agent_builder.Common.Map.{Map, lookup, insert}
use agent_builder.Common.Text.{text_eq}
use agent_builder.Registry.{
  RegistryEntry, AvailStatus, available, exhausted, other_status, is_unlimited, Catalog,
  lookup_entry, update_entry, list_entries,
}
pub mod Order
pub mod Select
pub mod Best
pub mod Quota
pub mod Unlimited
pub mod State
mod Tests

pub data Sensitivity : Type 0 where
  unhinted : Sensitivity
  sensitive : Sensitivity

pub record RoutingSpec : Type 0 where
  pub min_capability : ℤ
  pub sensitivity_hint : Sensitivity

pub record Router : Type 0 where
  pub catalog : Catalog
  pub escalated : Map (List ℕ) Bool

unfoldable pub new_router : Catalog → Router
new_router catalog = record { catalog = catalog; escalated = [] }

unfoldable pub is_exhausted : AvailStatus → Bool
is_exhausted available = false
is_exhausted exhausted = true
is_exhausted (other_status _) = false

unfoldable pub is_available : AvailStatus → Bool
is_available available = true
is_available exhausted = false
is_available (other_status _) = false

-- The two conditions of tryAutoRecover.
unfoldable pub recovers : ℤ → RegistryEntry → Bool
unfolding is_exhausted lt_int
recovers now e = is_exhausted e.availability.status && lt_int e.availability.reset_at now

unfoldable pub with_quota : ℤ → AvailStatus → ℤ → RegistryEntry → RegistryEntry
with_quota usage status reset_at e = record {
  id = e.id;
  harness = e.harness;
  capability_tier = e.capability_tier;
  cost_weight = e.cost_weight;
  model_id = e.model_id;
  endpoint = e.endpoint;
  secret_ref = e.secret_ref;
  budget = e.budget;
  usage = usage;
  availability = record { status = status; reset_at = reset_at };
}

-- The entry that tryAutoRecover returns, and the catalog that it leaves. `pos 0` is the zero time.
unfoldable pub try_auto_recover : ℤ → RegistryEntry → RegistryEntry
unfolding recovers with_quota
try_auto_recover now e = if recovers now e then with_quota (pos 0) available (pos 0) e else e

unfoldable pub recover_in_catalog : ℤ → RegistryEntry → Catalog → Catalog
unfolding recovers try_auto_recover update_entry
recover_in_catalog now e c = if recovers now e then update_entry (try_auto_recover now e) c else c

unfoldable pub tried : Option Bool → Bool
tried none = false
tried (some failed) = failed

-- r.escalated[id]
unfoldable pub is_escalated : Router → List ℕ → Bool
unfolding lookup tried text_eq
is_escalated r id = tried (lookup id r.escalated)

unfoldable pub eligible : Router → RoutingSpec → RegistryEntry → Bool
unfolding is_escalated lt_int is_available
eligible r spec e =
    not (is_escalated r e.id)
    && not (lt_int e.capability_tier spec.min_capability)
    && is_available e.availability.status

-- The loop of Select: the eligible entries, and the catalog with the recovered ones.
unfoldable pub scan :
    Router
    → RoutingSpec
    → (List ℕ → ℤ)
    → List RegistryEntry
    → Catalog
    → List RegistryEntry × Catalog
unfolding try_auto_recover recover_in_catalog eligible
scan r spec now [] c = ([], c)
scan r spec now (e ∷ es) c =
    let rest = scan r spec now es (recover_in_catalog (now e.id) e c) in
    let recovered = try_auto_recover (now e.id) e in
    if eligible r spec recovered then (recovered ∷ rest.0, rest.1) else rest

unfoldable pub is_local : RegistryEntry → Bool
unfolding is_unlimited text_eq
is_local e = (e.secret_ref == []) && is_unlimited e

-- a < b on strings, byte by byte.
unfoldable pub lt_text : List ℕ → List ℕ → Bool
unfolding nat_eq
lt_text s [] = false
lt_text [] (c ∷ t) = true
lt_text (b ∷ s) (c ∷ t) = let rest = lt_text s t in if b == c then rest else ltb b c

unfoldable pub less_tied : Sensitivity → RegistryEntry → RegistryEntry → Bool
unfolding is_local lt_text
less_tied unhinted a b = lt_text a.id b.id
less_tied sensitive a b =
    if is_local a
    then if is_local b then lt_text a.id b.id else true
    else if is_local b
    then false
    else lt_text a.id b.id

unfoldable pub less : Sensitivity → RegistryEntry → RegistryEntry → Bool
unfolding less_tied int_eq lt_int
less hint a b =
    if a.cost_weight == b.cost_weight
    then less_tied hint a b
    else lt_int a.cost_weight b.cost_weight

unfoldable pub insert_stable : Sensitivity → RegistryEntry → List RegistryEntry → List RegistryEntry
unfolding less
insert_stable hint a [] = a ∷ []
insert_stable hint a (b ∷ es) =
    let rest = insert_stable hint a es in if less hint b a then b ∷ rest else a ∷ b ∷ es

-- sort.SliceStable by `less`
unfoldable pub sort_stable : Sensitivity → List RegistryEntry → List RegistryEntry
unfolding insert_stable
sort_stable hint [] = []
sort_stable hint (a ∷ es) = insert_stable hint a (sort_stable hint es)

abbrev pub first : List RegistryEntry → Option RegistryEntry
first [] = none
first (e ∷ _) = some e

-- `none` is ErrNoEligibleExecutor.
unfoldable pub select : RoutingSpec → (List ℕ → ℤ) → Router → Option RegistryEntry × Router
unfolding scan sort_stable list_entries
select spec now r =
    let scanned = scan r spec now (list_entries r.catalog) r.catalog in
    (
      first (sort_stable spec.sensitivity_hint scanned.0),
      record { catalog = scanned.1; escalated = r.escalated },
    )

unfoldable pub on_gate_failure : List ℕ → Router → Router
unfolding insert text_eq
on_gate_failure id r = record { catalog = r.catalog; escalated = insert id true r.escalated }

unfoldable pub reset_escalation : Router → Router
reset_escalation r = record { catalog = r.catalog; escalated = [] }

abbrev store_entry : RegistryEntry → Router → Router
store_entry e r = record { catalog = update_entry e r.catalog; escalated = r.escalated }

-- The part of OnQuotaExhausted and OnRateLimit behind the lookup.
unfoldable pub exhaust_found : Option RegistryEntry → ℤ → Router → Router
unfolding is_unlimited with_quota update_entry
exhaust_found none reset_at r = r
exhaust_found (some e) reset_at r =
    if is_unlimited e then r else store_entry (with_quota e.usage exhausted reset_at e) r

unfoldable pub on_quota_exhausted : List ℕ → ℤ → Router → Router
unfolding lookup_entry exhaust_found
on_quota_exhausted id reset_at r = exhaust_found (lookup_entry id r.catalog) reset_at r

unfoldable pub dispatched : ℤ → RegistryEntry → RegistryEntry
unfolding with_quota ◌+ℤ◌ lt_int
dispatched now e =
    let usage = e.usage +ℤ pos 1 in
    if lt_int usage e.budget.limit
    then with_quota usage e.availability.status e.availability.reset_at e
    else with_quota usage exhausted (now +ℤ e.budget.window) e

unfoldable pub dispatch_found : Option RegistryEntry → ℤ → Router → Router
unfolding is_unlimited dispatched update_entry
dispatch_found none now r = r
dispatch_found (some e) now r = if is_unlimited e then r else store_entry (dispatched now e) r

unfoldable pub record_dispatch : List ℕ → ℤ → Router → Router
unfolding lookup_entry dispatch_found
record_dispatch id now r = dispatch_found (lookup_entry id r.catalog) now r

-- `retry_after` is the header read as seconds and turned into a time.Duration, `none` where the
-- header is empty, is not a number, or is negative.
unfoldable pub rate_limit_reset : ℤ → ℤ → Option ℤ → ℤ
unfolding ◌+ℤ◌
rate_limit_reset now cooldown none = now +ℤ cooldown
rate_limit_reset now cooldown (some retry_after) = now +ℤ retry_after

unfoldable pub on_rate_limit : List ℕ → ℤ → ℤ → Option ℤ → Router → Router
unfolding lookup_entry exhaust_found rate_limit_reset
on_rate_limit id now cooldown retry_after r =
    exhaust_found (lookup_entry id r.catalog) (rate_limit_reset now cooldown retry_after) r
