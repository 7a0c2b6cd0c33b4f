-- ===== src/Telegram/Authz/StoreLaws.antt =====
-- The approved-sender store keeps one record for each sender, and keeps it across a restart.
use agent_builder.Common.{
  some_inj, ◌≡◌, ◌≢◌, ◌⊎◌, refl, ap, subst, Bool, true, false, Option, none, some, List, [], ◌∷◌,
  ◌++◌, ℕ, ◌==◌, ◌||◌, arith, inl, inr, Bool-cases, String, string_eq, ==-refl, ◌∙◌,
}
use agent_builder.Common.Int.{ℤ, int_eq, lt_int}
use agent_builder.Common.Map.{Map, lookup, insert, lookup-insert}
use agent_builder.Telegram.Authz.Ids.{normalize}
use agent_builder.Telegram.Authz.Store.{
  Store, new_store, add, add_id, contains, contains_id, load_document, load_file, File, is_some,
  Files, contents, write_file, approve_all, ids_of, insert_sorted, sort, Json, load, persist,
  persisted, Stage,
}

-- Membership in a slice of IDs.
abbrev mem : ℤ → List ℤ → Bool
mem id [] = false
mem id (a ∷ s) = (a == id) || mem id s

is_some-insert :
    (id a : ℤ) (m : Map ℤ (Unit {0}))
    → is_some (lookup id (insert a tt m)) ≡ ((a == id) || is_some (lookup id m))
is_some-insert id a m =
    rw (lookup-insert id a tt m)
      (elim (Bool-cases (a == id)) [ inl h ↦ rw h refl | inr h ↦ rw h refl ])

approve_all-mem :
    (id : ℤ) (ids : List ℤ) (m : Map ℤ (Unit {0}))
    → is_some (lookup id (approve_all ids m)) ≡ (mem id ids || is_some (lookup id m))
unfolding approve_all
approve_all-mem id [] m = refl
approve_all-mem id (a ∷ ids) m =
    rw (approve_all-mem id ids (insert a tt m), is_some-insert id a m) (ground arith)

mem-insert_sorted : (id a : ℤ) (s : List ℤ) → mem id (insert_sorted a s) ≡ ((a == id) || mem id s)
unfolding insert_sorted
mem-insert_sorted id a [] = refl
mem-insert_sorted id a (b ∷ s) = elim (Bool-cases (lt_int b a)) [
  | inl h ↦ rw (h, mem-insert_sorted id a s) (ground arith)
  | inr h ↦ rw h refl
]

mem-sort : (id : ℤ) (s : List ℤ) → mem id (sort s) ≡ mem id s
unfolding sort
mem-sort id [] = refl
mem-sort id (a ∷ s) = rw (mem-insert_sorted id a (sort s), mem-sort id s) refl

mem-ids_of : (id : ℤ) (m : Map ℤ (Unit {0})) → mem id (ids_of m) ≡ is_some (lookup id m)
unfolding ids_of lookup
mem-ids_of id [] = refl
mem-ids_of id ((a, w) ∷ m) = rw (mem-ids_of id m) (ground arith)

-- An ID is in the saved list exactly if it is in the map.
saved-mem :
    (id : ℤ) (m : Map ℤ (Unit {0}))
    → is_some (lookup id (approve_all (sort (ids_of m)) [])) ≡ is_some (lookup id m)
unfolding lookup
saved-mem id m =
    let e : is_some (lookup id (approve_all (sort (ids_of m)) [])) ≡ (mem id (ids_of m) || false) =
      approve_all-mem id (sort (ids_of m)) [] ∙ ap (λ b. b || false) (mem-sort id (ids_of m)) in
    e ∙ (rw (mem-ids_of id m) (ground arith))

read_back :
    (path : String) (bytes : List ℕ) (files : Files)
    → write_file path bytes files path ≡ contents bytes
unfolding write_file
read_back path bytes files = rw (==-refl path) refl

persisted_at :
    (json : Json) (s : Store) (files : Files)
    → persisted json s files s.path
      ≡ contents (json.marshal (sort (ids_of s.approved)) ++ (b'\n' ∷ []))
unfolding persisted
persisted_at json s files = read_back s.path _ files

persist_ok :
    (json : Json) (s : Store) (files files' : Files) (failing : Option Stage)
    → persist json failing s files ≡ (true, files')
    → files' ≡ persisted json s files
unfolding persist
persist_ok json s files files' none h = cc
persist_ok json s files files' (some Stage.marshal_indent) h = cc
persist_ok json s files files' (some Stage.create_temp) h = cc
persist_ok json s files files' (some Stage.chmod_temp) h = cc
persist_ok json s files files' (some Stage.write_temp) h = cc
persist_ok json s files files' (some Stage.close_temp) h = cc
persist_ok json s files files' (some Stage.rename) h = cc
persist_ok json s files files' (some Stage.chmod_store) h = cc

load_contents :
    (json : Json) (path : String) (file : File) (bytes : List ℕ) (ids : List ℤ)
    → file ≡ contents bytes
    → json.unmarshal bytes ≡ some ids
    → load_file json path file ≡ some (record { path = path; approved = approve_all ids [] })
unfolding load_file load_document
load_contents json path file bytes ids e u = rw (e, u) refl

same_answer :
    (s : Store) (id : Option ℤ)
    → contains_id
        (record { path = s.path; approved = approve_all (sort (ids_of s.approved)) [] })
        id
      ≡ contains_id s id
unfolding contains_id
same_answer s none = refl
same_answer s (some id) = ap some (saved-mem id s.approved)

-- Where Persist returns no error, a store that loads the file afterwards answers Contains for every
-- raw ID as the persisted store does, if json.Unmarshal reads back what json.MarshalIndent wrote
-- and the newline behind it.
pub load_persisted :
    (json : Json) (s : Store) (files files' : Files) (failing : Option Stage)
    → ((ids : List ℤ) → json.unmarshal (json.marshal ids ++ (b'\n' ∷ [])) ≡ some ids)
    → persist json failing s files ≡ (true, files')
    → (s' : Store) × (load json files' (new_store s.path) ≡ some s')
      × ((raw : List ℕ) → contains s' raw ≡ contains s raw)
unfolding load load_file load_document new_store contains
load_persisted json s files files' failing back ok = (
  record { path = s.path; approved = approve_all (sort (ids_of s.approved)) [] },
  load_contents json s.path _ _ _
      (ap (λ fs. fs s.path) (persist_ok json s files files' failing ok) ∙ persisted_at json s files)
      (back (sort (ids_of s.approved))),
  λ raw. same_answer s (normalize raw),
)

-- A Persist that fails leaves every file as it was, or, where only the last chmod failed, leaves
-- every file as a Persist without failure does.
pub persist_failed :
    (json : Json) (s : Store) (files files' : Files) (failing : Option Stage)
    → persist json failing s files ≡ (false, files')
    → (files' ≡ files)
      ⊎ ((failing ≡ some Stage.chmod_store) × (persist json none s files ≡ (true, files')))
unfolding persist
persist_failed json s files files' none h = cc
persist_failed json s files files' (some Stage.marshal_indent) h = inl (cc)
persist_failed json s files files' (some Stage.create_temp) h = inl (cc)
persist_failed json s files files' (some Stage.chmod_temp) h = inl (cc)
persist_failed json s files files' (some Stage.write_temp) h = inl (cc)
persist_failed json s files files' (some Stage.close_temp) h = inl (cc)
persist_failed json s files files' (some Stage.rename) h = inl (cc)
persist_failed json s files files' (some Stage.chmod_store) h = inr (refl, (cc))

add_id_lem :
    (id id' : Option ℤ) (s s' : Store)
    → add_id id s ≡ some s'
    → (id' ≡ id → contains_id s' id' ≡ some true)
      × (id' ≢ id → contains_id s' id' ≡ contains_id s id')
unfolding add_id contains_id
add_id_lem none id' s s' h = cc
add_id_lem (some i) none s s' h = ((cc), λ _. refl)
add_id_lem (some i) (some j) s s' h =
    let e : contains_id (record { path = s.path; approved = insert i tt s.approved }) (some j)
        ≡ some ((i == j) || is_some (lookup j s.approved)) =
      ap some (is_some-insert j i s.approved) in
    subst
      (λ t.
        (some j ≡ some i → contains_id t (some j) ≡ some true)
        × (some j ≢ some i → contains_id t (some j) ≡ some (is_some (lookup j s.approved))))
      (some_inj h) ((λ same. ground arith), λ differ. ground arith)

-- Add approves the sender whose ID it normalizes to, in every formatting of that ID, and changes
-- the answer for no other raw ID.
pub contains-add :
    (raw raw' : List ℕ) (s s' : Store)
    → add raw s ≡ some s'
    → (normalize raw' ≡ normalize raw → contains s' raw' ≡ some true)
      × (normalize raw' ≢ normalize raw → contains s' raw' ≡ contains s raw')
unfolding add contains
contains-add raw raw' s s' h = add_id_lem (normalize raw) (normalize raw') s s' h
