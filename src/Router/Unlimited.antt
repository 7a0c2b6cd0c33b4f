-- ===== src/Router/Unlimited.antt =====
-- An unlimited entry is the backstop that no quota signal takes away.
use agent_builder.Common.{
  true_not_false, ◌≡◌, ◌≢◌, ◌⊎◌, refl, sym, ap, subst, ◌∙◌, true, Option, some, none, List, [], ◌∷◌,
  ℕ, arith, inl, inr, Bool-cases, if◌then◌else◌,
}
use agent_builder.Common.Int.{ℤ, int_eq}
use agent_builder.Common.Map.{lookup}
use agent_builder.Common.Text.{text_eq}
use agent_builder.Registry.{
  RegistryEntry, exhausted, is_unlimited, Catalog, lookup_entry, update_entry, list_entries,
}
use agent_builder.Registry.Laws.{lookup-update_entry}
use agent_builder.Router.{
  Router, RoutingSpec, scan, select, recovers, with_quota, try_auto_recover, recover_in_catalog,
  on_gate_failure, reset_escalation, exhaust_found, on_quota_exhausted, dispatched, dispatch_found,
  record_dispatch, on_rate_limit,
}
use agent_builder.Router.Quota.{
  Call, select_call, gate_failure_call, quota_exhausted_call, dispatch_call, rate_limit_call,
  reset_call, perform, perform_all,
}

-- No unlimited entry of the catalog is exhausted.
abbrev pub BackstopOpen : Catalog → Type 0
BackstopOpen c =
    (id : List ℕ) (e : RegistryEntry)
    → lookup id c.entries ≡ some e
    → is_unlimited e ≡ true
    → e.availability.status ≢ exhausted

update-BackstopOpen :
    (e : RegistryEntry) (c : Catalog)
    → (is_unlimited e ≡ true → e.availability.status ≢ exhausted)
    → BackstopOpen c
    → BackstopOpen (update_entry e c)
update-BackstopOpen e c new old id f found unlimited = elim (lookup-update_entry e c id f found) [
  | inl before ↦ old id f before unlimited
  | inr same ↦ λ h.
      new (ap is_unlimited (sym same) ∙ unlimited)
        (ap (λ (x : RegistryEntry). x.availability.status) (sym same) ∙ h)
]

exhaust_found-BackstopOpen :
    (found : Option RegistryEntry) (reset_at : ℤ) (r : Router)
    → BackstopOpen r.catalog
    → BackstopOpen (exhaust_found found reset_at r).catalog
unfolding exhaust_found with_quota is_unlimited
exhaust_found-BackstopOpen none reset_at r h = h
exhaust_found-BackstopOpen (some e) reset_at r h = elim (Bool-cases (is_unlimited e)) [
  | inl unlimited ↦ rw unlimited h
  | inr limited ↦ rw limited (
      update-BackstopOpen (with_quota e.usage exhausted reset_at e) r.catalog
        (λ u. absurd (true_not_false (sym u ∙ limited))) h)
]

dispatched-unlimited :
    (now : ℤ) (e : RegistryEntry) → is_unlimited (dispatched now e) ≡ is_unlimited e
unfolding dispatched with_quota is_unlimited
dispatched-unlimited now e = ground arith

dispatch_found-BackstopOpen :
    (found : Option RegistryEntry) (now : ℤ) (r : Router)
    → BackstopOpen r.catalog
    → BackstopOpen (dispatch_found found now r).catalog
unfolding dispatch_found
dispatch_found-BackstopOpen none now r h = h
dispatch_found-BackstopOpen (some e) now r h = elim (Bool-cases (is_unlimited e)) [
  | inl unlimited ↦ rw unlimited h
  | inr limited ↦ rw limited (
      update-BackstopOpen (dispatched now e) r.catalog
        (λ u. absurd (true_not_false (sym u ∙ dispatched-unlimited now e ∙ limited))) h)
]

recovered_available :
    (now : ℤ) (e : RegistryEntry)
    → recovers now e ≡ true
    → (try_auto_recover now e).availability.status ≢ exhausted
unfolding try_auto_recover with_quota
recovered_available now e h = rw h (λ p. cc)

recover_in_catalog_lem :
    (now : ℤ) (e : RegistryEntry) (c : Catalog)
    → ((recovers now e ≡ true)
        × (recover_in_catalog now e c ≡ update_entry (try_auto_recover now e) c))
      ⊎ (recover_in_catalog now e c ≡ c)
unfolding recover_in_catalog
recover_in_catalog_lem now e c = elim (Bool-cases (recovers now e)) [
  | inl again ↦
      inl (again, ap (λ b. if b then update_entry (try_auto_recover now e) c else c) again)
  | inr other ↦ inr (ap (λ b. if b then update_entry (try_auto_recover now e) c else c) other)
]

recover-BackstopOpen :
    (now : ℤ) (e : RegistryEntry) (c : Catalog)
    → BackstopOpen c
    → BackstopOpen (recover_in_catalog now e c)
recover-BackstopOpen now e c h = elim (recover_in_catalog_lem now e c) [
  | inl (again, same) ↦
      subst (λ x. BackstopOpen x) (sym same)
        (update-BackstopOpen (try_auto_recover now e) c (λ _. recovered_available now e again) h)
  | inr same ↦ subst (λ x. BackstopOpen x) (sym same) h
]

scan_catalog : Router → RoutingSpec → (List ℕ → ℤ) → List RegistryEntry → Catalog → Catalog
scan_catalog r spec now [] c = c
scan_catalog r spec now (e ∷ es) c = scan_catalog r spec now es (recover_in_catalog (now e.id) e c)

scan_catalog_lem :
    (r : Router) (spec : RoutingSpec) (now : List ℕ → ℤ) (es : List RegistryEntry) (c : Catalog)
    → (scan r spec now es c).1 ≡ scan_catalog r spec now es c
unfolding scan scan_catalog
scan_catalog_lem r spec now [] c = refl
scan_catalog_lem r spec now (e ∷ es) c =
    ground (arith, scan_catalog_lem r spec now es (recover_in_catalog (now e.id) e c))

scan-BackstopOpen :
    (r : Router) (spec : RoutingSpec) (now : List ℕ → ℤ) (es : List RegistryEntry) (c : Catalog)
    → BackstopOpen c
    → BackstopOpen (scan_catalog r spec now es c)
unfolding scan_catalog
scan-BackstopOpen r spec now [] c h = h
scan-BackstopOpen r spec now (e ∷ es) c h =
    scan-BackstopOpen r spec now es (recover_in_catalog (now e.id) e c)
      (recover-BackstopOpen (now e.id) e c h)

perform-BackstopOpen :
    (call : Call) (r : Router) → BackstopOpen r.catalog → BackstopOpen (perform call r).catalog
unfolding perform select on_gate_failure on_quota_exhausted record_dispatch on_rate_limit
    reset_escalation
perform-BackstopOpen (select_call spec now) r h =
    rw (scan_catalog_lem r spec now (list_entries r.catalog) r.catalog)
      (scan-BackstopOpen r spec now (list_entries r.catalog) r.catalog h)
perform-BackstopOpen (gate_failure_call id) r h = h
perform-BackstopOpen (quota_exhausted_call id reset_at) r h =
    exhaust_found-BackstopOpen (lookup_entry id r.catalog) reset_at r h
perform-BackstopOpen (dispatch_call id now) r h =
    dispatch_found-BackstopOpen (lookup_entry id r.catalog) now r h
perform-BackstopOpen (rate_limit_call id now cooldown retry_after) r h =
    exhaust_found-BackstopOpen (lookup_entry id r.catalog) _ r h
perform-BackstopOpen reset_call r h = h

-- Whatever calls of the router but LoadState come, no unlimited entry becomes exhausted, if none was at
-- first.
pub calls_keep-BackstopOpen :
    (calls : List Call) (r : Router)
    → BackstopOpen r.catalog
    → BackstopOpen (perform_all calls r).catalog
unfolding perform_all
calls_keep-BackstopOpen [] r h = h
calls_keep-BackstopOpen (call ∷ calls) r h =
    calls_keep-BackstopOpen calls (perform call r) (perform-BackstopOpen call r h)
