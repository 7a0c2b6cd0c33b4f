-- ===== src/Telegram/Pairing/Laws.antt =====
-- What an owner's approval changes, in memory and on disk.
use agent_builder.Common.{
  ◌≡◌, ◌≢◌, String, refl, ap, sym, subst, ◌∙◌, Bool, true, false, Option, some, none, List, [], ◌∷◌,
  ◌++◌, ℕ, arith,
}
use agent_builder.Common.Int.{ℤ, int_eq}
use agent_builder.Common.Map.{insert}
use agent_builder.Telegram.Authz.Ids.{normalize, format_int}
use agent_builder.Telegram.Authz.IdLaws.{InInt64, normalize-format_int}
use agent_builder.Telegram.Authz.Store.{
  Store, new_store, add, add_id, contains, Files, Json, load, persist, Stage,
}
use agent_builder.Telegram.Authz.StoreLaws.{load_persisted, contains-add}
use agent_builder.Telegram.Pairing.{
  Owner, World, emit_audit_event, notify, report, after_persist, after_add, approve_in,
  handle_pairing_approve,
}

-- A report changes neither the store nor the files.
notify_lem :
    (o : Owner) (chat text : List ℕ) (w : World)
    → ((notify o chat text w).store ≡ w.store) × ((notify o chat text w).files ≡ w.files)
unfolding notify
notify_lem o chat text w = ground arith

audit_lem :
    (o : Owner) (reason : List ℕ) (w : World)
    → ((emit_audit_event o reason w).store ≡ w.store)
      × ((emit_audit_event o reason w).files ≡ w.files)
unfolding emit_audit_event
audit_lem o reason w = ground arith

pub report_lem :
    (o : Owner) (reason text : List ℕ) (w : World)
    → ((report o reason text w).store ≡ w.store) × ((report o reason text w).files ≡ w.files)
unfolding report
report_lem o reason text w =
    let n = notify_lem o o.owner_chat text (emit_audit_event o reason w) in
    let a = audit_lem o reason w in (n.0 ∙ a.0, n.1 ∙ a.1)

after_persist_lem :
    (o : Owner) (target : List ℕ) (result : Bool × Files) (w : World)
    → ((after_persist o target result w).store ≡ w.store)
      × ((after_persist o target result w).files ≡ result.1)
unfolding after_persist
after_persist_lem o target (true, files) w = report_lem o _ _ (record w { files = files })
after_persist_lem o target (false, files) w = report_lem o _ _ (record w { files = files })

persist-none :
    (json : Json) (s : Store) (files : Files)
    → persist json none s files ≡ (true, (persist json none s files).1)
unfolding persist
persist-none json s files = refl

path-add_id : (id : Option ℤ) (s s' : Store) → add_id id s ≡ some s' → s'.path ≡ s.path
unfolding add_id
path-add_id none s s' h = cc
path-add_id (some id) s s' h = sym (ap path_of h)
  where
    path_of : Option Store → String
    path_of none = s.path
    path_of (some t) = t.path

path-add : (raw : List ℕ) (s s' : Store) → add raw s ≡ some s' → s'.path ≡ s.path
unfolding add
path-add raw s s' h = path-add_id (normalize raw) s s' h

add-format_int :
    (target : ℤ) (s : Store) → InInt64 target → (s' : Store) × (add (format_int target) s ≡ some s')
unfolding add add_id
add-format_int target s range = (
  record { path = s.path; approved = insert target tt s.approved },
  rw (normalize-format_int target range) refl,
)

after_add_lem :
    (o : Owner) (failing : Option Stage) (target : List ℕ) (s' : Store) (w : World)
    → ((after_add o failing target (some s') w).store ≡ some s')
      × ((after_add o failing target (some s') w).files ≡ (persist o.json failing s' w.files).1)
unfolding after_add
after_add_lem o failing target s' w =
    after_persist_lem o target (persist o.json failing s' w.files) (record w { store = some s' })

approve_in_lem :
    (o : Owner) (failing : Option Stage) (target : List ℕ) (s s' : Store) (w : World)
    → add target s ≡ some s'
    → w.store ≡ some s
    → ((approve_in o failing target w.store w).store ≡ some s')
      × ((approve_in o failing target w.store w).files ≡ (persist o.json failing s' w.files).1)
unfolding approve_in
approve_in_lem o failing target s s' w added here =
    subst
      (λ found.
        ((approve_in o failing target found w).store ≡ some s')
        × ((approve_in o failing target found w).files ≡ (persist o.json failing s' w.files).1))
      (sym here)
      (subst
        (λ found.
          ((after_add o failing target found w).store ≡ some s')
          × ((after_add o failing target found w).files ≡ (persist o.json failing s' w.files).1))
        (sym added) (after_add_lem o failing target s' w))

-- The approval of an ID finds the sender in the store in memory, even where it was reported as failed
-- because Persist failed; the other raw IDs keep their answers.
pub approved_in_memory :
    (o : Owner) (failing : Option Stage) (target : ℤ) (s : Store) (w : World)
    → InInt64 target
    → w.store ≡ some s
    → (s' : Store) × ((handle_pairing_approve o failing target w).store ≡ some s')
      × (contains s' (format_int target) ≡ some true)
      × ((raw : List ℕ) → normalize raw ≢ some target → contains s' raw ≡ contains s raw)
unfolding handle_pairing_approve
approved_in_memory o failing target s w range here =
    let (s', added) = add-format_int target s range in
    let reads = normalize-format_int target range in
    (
      s',
      (approve_in_lem o failing (format_int target) s s' w added here).0,
      (contains-add (format_int target) (format_int target) s s' added).0 refl,
      λ raw other. (contains-add (format_int target) raw s s' added).1 (λ e. other (e ∙ reads)),
    )

-- An approval whose Persist reports no error survives a restart: a store that loads the file
-- afterwards finds the sender, if json.Unmarshal reads back what json.MarshalIndent wrote and the
-- newline behind it.
pub approval_survives :
    (o : Owner) (target : ℤ) (s : Store) (w : World)
    → InInt64 target
    → w.store ≡ some s
    → ((ids : List ℤ) → o.json.unmarshal (o.json.marshal ids ++ (b'\n' ∷ [])) ≡ some ids)
    → (reloaded : Store) × (load o.json
          (handle_pairing_approve o none target w).files
          (new_store s.path)
        ≡ some reloaded)
      × (contains reloaded (format_int target) ≡ some true)
unfolding handle_pairing_approve
approval_survives o target s w range here back =
    let (s', added) = add-format_int target s range in
    let files = persist o.json none s' w.files in
    let (reloaded, found, same) =
      load_persisted o.json s' w.files files.1 none back (persist-none o.json s' w.files) in
    (
      reloaded,
      ap (λ fs. load o.json fs (new_store s.path))
            (approve_in_lem o none (format_int target) s s' w added here).1
          ∙ ap (λ path. load o.json files.1 (new_store path))
              (sym (path-add (format_int target) s s' added))
          ∙ found,
      same (format_int target)
          ∙ (contains-add (format_int target) (format_int target) s s' added).0 refl,
    )
