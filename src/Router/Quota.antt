-- ===== src/Router/Quota.antt =====
-- The histories of a router as lists of calls.
use agent_builder.Common.{
  true_not_false, ◌≡◌, ◌≢◌, ◌⊎◌, refl, sym, ap, ◌∙◌, Bool, true, Option, some, none, List, [], ◌∷◌,
  ℕ, ◌==◌, ne_of_==, arith, inl, inr, Bool-cases,
}
use agent_builder.Common.Int.{ℤ}
use agent_builder.Common.Map.{lookup, lookup-insert}
use agent_builder.Common.Text.{text_eq}
use agent_builder.Registry.{
  RegistryEntry, AvailStatus, available, exhausted, other_status, lookup_entry,
}
use agent_builder.Router.{
  Router, RoutingSpec, tried, is_escalated, select, on_gate_failure, reset_escalation,
  exhaust_found, on_quota_exhausted, dispatch_found, record_dispatch, on_rate_limit,
}
use agent_builder.Router.State.{EntryState, load_found, continue, load_entries, load_state}
use agent_builder.Router.Best.{select_best}

-- A call of the router but LoadState and SaveState, with what it reads from the clock.
pub data Call : Type 0 where
  select_call : RoutingSpec → (List ℕ → ℤ) → Call
  gate_failure_call : List ℕ → Call
  quota_exhausted_call : List ℕ → ℤ → Call
  dispatch_call : List ℕ → ℤ → Call
  rate_limit_call : List ℕ → ℤ → ℤ → Option ℤ → Call
  reset_call : Call

unfoldable pub perform : Call → Router → Router
unfolding select on_gate_failure on_quota_exhausted record_dispatch on_rate_limit reset_escalation
perform (select_call spec now) r = (select spec now r).1
perform (gate_failure_call id) r = on_gate_failure id r
perform (quota_exhausted_call id reset_at) r = on_quota_exhausted id reset_at r
perform (dispatch_call id now) r = record_dispatch id now r
perform (rate_limit_call id now cooldown retry_after) r =
    on_rate_limit id now cooldown retry_after r
perform reset_call r = reset_escalation r

unfoldable pub perform_all : List Call → Router → Router
unfolding perform
perform_all [] r = r
perform_all (call ∷ calls) r = perform_all calls (perform call r)

-- These calls, and LoadState with what it reads from the file, and SaveState, which only reads the
-- router.
pub data AnyCall : Type 0 where
  routing : Call → AnyCall
  loading : Option (Option (List (List ℕ × EntryState))) → AnyCall
  saving : AnyCall

unfoldable pub perform_any : AnyCall → Router → Router
unfolding perform load_state
perform_any (routing call) r = perform call r
perform_any (loading file) r = (load_state file r).1
perform_any saving r = r

unfoldable pub perform_every : List AnyCall → Router → Router
unfolding perform_any
perform_every [] r = r
perform_every (call ∷ calls) r = perform_every calls (perform_any call r)

-- Not a call of ResetEscalation.
abbrev pub IsKeeping : Call → Type 0
IsKeeping reset_call = ⊥
IsKeeping _ = Unit

abbrev pub WithinDispatch : List AnyCall → Type 0
WithinDispatch [] = Unit
WithinDispatch (routing call ∷ calls) = IsKeeping call × WithinDispatch calls
WithinDispatch (loading file ∷ calls) = WithinDispatch calls
WithinDispatch (saving ∷ calls) = WithinDispatch calls

exhaust_found-escalated :
    (found : Option RegistryEntry) (reset_at : ℤ) (r : Router)
    → (exhaust_found found reset_at r).escalated ≡ r.escalated
unfolding exhaust_found
exhaust_found-escalated none reset_at r = refl
exhaust_found-escalated (some e) reset_at r = ground arith

dispatch_found-escalated :
    (found : Option RegistryEntry) (now : ℤ) (r : Router)
    → (dispatch_found found now r).escalated ≡ r.escalated
unfolding dispatch_found
dispatch_found-escalated none now r = refl
dispatch_found-escalated (some e) now r = ground arith

is_escalated-same :
    (id : List ℕ) (r s : Router)
    → s.escalated ≡ r.escalated
    → is_escalated r id ≡ true
    → is_escalated s id ≡ true
unfolding is_escalated
is_escalated-same id r s e h = ap (λ m. tried (lookup id m)) e ∙ h

gate_failure-escalated :
    (failed id : List ℕ) (r : Router)
    → (failed ≡ id) ⊎ (is_escalated r id ≡ true)
    → is_escalated (on_gate_failure failed r) id ≡ true
unfolding is_escalated on_gate_failure tried
gate_failure-escalated failed id r h =
    rw (lookup-insert id failed true r.escalated) (elim (Bool-cases (failed == id)) [
      | inl same ↦ rw same refl
      | inr other ↦
          rw other (elim h [ inl e ↦ absurd (ne_of_== failed id other e) | inr before ↦ before ])
    ])

exhausted_same :
    (id : List ℕ) (reset_at : ℤ) (r : Router)
    → (on_quota_exhausted id reset_at r).escalated ≡ r.escalated
unfolding on_quota_exhausted
exhausted_same id reset_at r = exhaust_found-escalated (lookup_entry id r.catalog) reset_at r

dispatched_same :
    (id : List ℕ) (now : ℤ) (r : Router) → (record_dispatch id now r).escalated ≡ r.escalated
unfolding record_dispatch
dispatched_same id now r = dispatch_found-escalated (lookup_entry id r.catalog) now r

limited_same :
    (id : List ℕ) (now cooldown : ℤ) (after : Option ℤ) (r : Router)
    → (on_rate_limit id now cooldown after r).escalated ≡ r.escalated
unfolding on_rate_limit
limited_same id now cooldown after r = exhaust_found-escalated (lookup_entry id r.catalog) _ r

perform-escalated :
    (call : Call) (id : List ℕ) (r : Router)
    → IsKeeping call
    → is_escalated r id ≡ true
    → is_escalated (perform call r) id ≡ true
unfolding perform select
perform-escalated (select_call spec now) id r within h =
    is_escalated-same id r (select spec now r).1 refl h
perform-escalated (gate_failure_call failed) id r within h =
    gate_failure-escalated failed id r (inr h)
perform-escalated (quota_exhausted_call q at) id r within h =
    is_escalated-same id r (on_quota_exhausted q at r) (exhausted_same q at r) h
perform-escalated (dispatch_call q now) id r within h =
    is_escalated-same id r (record_dispatch q now r) (dispatched_same q now r) h
perform-escalated (rate_limit_call q now cooldown after) id r within h =
    is_escalated-same id r (on_rate_limit q now cooldown after r)
      (limited_same q now cooldown after r) h
perform-escalated reset_call id r within h = elim within [ ]

load_found-escalated :
    (found : Option RegistryEntry) (saved : EntryState) (status : AvailStatus) (r s : Router)
    → load_found found saved status r ≡ some s
    → s.escalated ≡ r.escalated
unfolding load_found
load_found-escalated none saved status r s h = ground arith
load_found-escalated (some e) saved available r s h = ground arith
load_found-escalated (some e) saved exhausted r s h = ground arith
load_found-escalated (some e) saved (other_status t) r s h = absurd cc (h)

continue-escalated :
    (o : Option Router) (r : Router) (rest : Router → Bool × Router)
    → ((s : Router) → o ≡ some s → s.escalated ≡ r.escalated)
    → ((s : Router) → (rest s).1.escalated ≡ s.escalated)
    → (continue o r rest).1.escalated ≡ r.escalated
unfolding continue
continue-escalated none r rest one more = refl
continue-escalated (some s) r rest one more = more s ∙ one s refl

load_entries-escalated :
    (entries : List (List ℕ × EntryState)) (r : Router)
    → (load_entries entries r).1.escalated ≡ r.escalated
unfolding load_entries
load_entries-escalated [] r = refl
load_entries-escalated ((id, saved) ∷ entries) r =
    continue-escalated (load_found (lookup_entry id r.catalog) saved saved.avail_status r) r
      (load_entries entries)
      (load_found-escalated (lookup_entry id r.catalog) saved saved.avail_status r)
      (load_entries-escalated entries)

load_state-escalated :
    (file : Option (Option (List (List ℕ × EntryState)))) (r : Router)
    → (load_state file r).1.escalated ≡ r.escalated
unfolding load_state
load_state-escalated none r = refl
load_state-escalated (some none) r = refl
load_state-escalated (some (some entries)) r = load_entries-escalated entries r

perform_every-escalated :
    (calls : List AnyCall) (id : List ℕ) (r : Router)
    → WithinDispatch calls
    → is_escalated r id ≡ true
    → is_escalated (perform_every calls r) id ≡ true
unfolding perform_every perform_any
perform_every-escalated [] id r within h = h
perform_every-escalated (routing call ∷ calls) id r (keeping, within) h =
    perform_every-escalated calls id (perform call r) within (perform-escalated call id r keeping h)
perform_every-escalated (loading file ∷ calls) id r within h =
    perform_every-escalated calls id (load_state file r).1 within
      (is_escalated-same id r (load_state file r).1 (load_state-escalated file r) h)
perform_every-escalated (saving ∷ calls) id r within h = perform_every-escalated calls id r within h

-- After OnGateFailure, and any calls but ResetEscalation, LoadState and SaveState among them, Select
-- does not return the entry that failed.
pub gate_failure_excludes :
    (failed : List ℕ) (calls : List AnyCall) (r : Router) (spec : RoutingSpec) (now : List ℕ → ℤ)
    (e : RegistryEntry)
    → WithinDispatch calls
    → (select spec now (perform_every calls (on_gate_failure failed r))).0 ≡ some e
    → e.id ≢ failed
gate_failure_excludes failed calls r spec now e within h same =
    let r' = perform_every calls (on_gate_failure failed r) in
    let (_, (fresh, _, _), _) = select_best r' spec now e h in
    let escalated : is_escalated r' failed ≡ true =
      perform_every-escalated calls failed (on_gate_failure failed r) within
        (gate_failure-escalated failed failed r (inl refl)) in
    true_not_false (sym escalated ∙ ap (is_escalated r') (sym same) ∙ fresh)
