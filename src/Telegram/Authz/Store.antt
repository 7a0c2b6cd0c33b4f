-- ===== src/Telegram/Authz/Store.antt =====
-- The approved-sender store: `Store` of internal/channel/telegram/authz/authz.go. What encoding/json
-- makes of the document is an argument, and so is the step at which the operating system fails.
-- The mutex makes each operation one step. The temporary file is gone after every `Persist`.
use agent_builder.Common.{
  Bool, true, false, Option, none, some, List, [], ◌∷◌, ℕ, suc, String, string_eq, ◌==◌, ◌++◌,
  if◌then◌else◌,
}
use agent_builder.Common.Int.{ℤ, int_eq, lt_int}
use agent_builder.Common.Map.{Map, lookup, insert, delete}
use agent_builder.Telegram.Authz.Ids.{normalize}

pub record Store : Type 0 where
  pub path : String
  pub approved : Map ℤ (Unit {0})

unfoldable pub new_store : String → Store
new_store path = record { path = path; approved = [] }

-- The part of `Add` behind the call of Normalize; so for the next operations.
unfoldable pub add_id : Option ℤ → Store → Option Store
unfolding insert int_eq
add_id none s = none
add_id (some id) s = some (record { path = s.path; approved = insert id tt s.approved })

unfoldable pub add : List ℕ → Store → Option Store
unfolding normalize add_id
add raw s = add_id (normalize raw) s

unfoldable pub remove_id : Option ℤ → Store → Option Store
unfolding delete int_eq
remove_id none s = none
remove_id (some id) s = some (record { path = s.path; approved = delete id s.approved })

unfoldable pub remove : List ℕ → Store → Option Store
unfolding normalize remove_id
remove raw s = remove_id (normalize raw) s

abbrev pub is_some {ℓ} : {A : Type ℓ} → Option A → Bool
is_some none = false
is_some (some _) = true

unfoldable pub contains_id : Store → Option ℤ → Option Bool
unfolding lookup int_eq
contains_id s none = none
contains_id s (some id) = some (is_some (lookup id s.approved))

-- `none` is the error, with which the code returns false.
unfoldable pub contains : Store → List ℕ → Option Bool
unfolding normalize contains_id
contains s raw = contains_id s (normalize raw)

-- What is at a path.
pub data File : Type 0 where
  absent : File
  unreadable : File
  contents : List ℕ → File

abbrev pub Files : Type 0
Files = String → File

unfoldable pub write_file : String → List ℕ → Files → Files
unfolding string_eq
write_file path bytes files p = if p == path then contents bytes else files p

unfoldable pub approve_all : List ℤ → Map ℤ (Unit {0}) → Map ℤ (Unit {0})
unfolding insert int_eq
approve_all [] m = m
approve_all (id ∷ ids) m = approve_all ids (insert id tt m)

-- for id := range s.approved { ids = append(ids, id) }
unfoldable pub ids_of : Map ℤ (Unit {0}) → List ℤ
ids_of [] = []
ids_of ((id, _) ∷ m) = id ∷ ids_of m

unfoldable pub insert_sorted : ℤ → List ℤ → List ℤ
unfolding lt_int
insert_sorted a [] = a ∷ []
insert_sorted a (b ∷ s) = let rest = insert_sorted a s in if lt_int b a then b ∷ rest else a ∷ b ∷ s

-- sort.Slice by `<`
unfoldable pub sort : List ℤ → List ℤ
unfolding insert_sorted
sort [] = []
sort (a ∷ s) = insert_sorted a (sort s)

-- The calls of `Persist` that can fail.
pub data Stage : Type 0 where
  marshal_indent : Stage
  create_temp : Stage
  chmod_temp : Stage
  write_temp : Stage
  close_temp : Stage
  rename : Stage
  chmod_store : Stage

-- json.MarshalIndent and json.Unmarshal on a `storeFile`.
pub record Json : Type 0 where
  pub marshal : List ℤ → List ℕ
  pub unmarshal : List ℕ → Option (List ℤ)

module _ (json : Json) where
  unfoldable pub load_document : String → Option (List ℤ) → Option Store
  unfolding approve_all
  load_document path none = none
  load_document path (some ids) = some (record { path = path; approved = approve_all ids [] })

  unfoldable pub load_file : String → File → Option Store
  unfolding load_document
  load_file path absent = some (record { path = path; approved = [] })
  load_file path unreadable = none
  load_file path (contents bytes) = load_document path (json.unmarshal bytes)

  unfoldable pub load : Files → Store → Option Store
  unfolding load_file
  load files s = load_file s.path (files s.path)

  unfoldable pub persisted : Store → Files → Files
  unfolding sort ids_of write_file
  persisted s files =
      write_file s.path (json.marshal (sort (ids_of s.approved)) ++ (b'\n' ∷ [])) files

  -- The first failing call, if one fails, decides what is on disk and what is returned.
  unfoldable pub persist : Option Stage → Store → Files → Bool × Files
  unfolding persisted
  persist none s files = (true, persisted s files)
  persist (some Stage.chmod_store) s files = (false, persisted s files)
  persist (some _) s files = (false, files)

unfoldable pub size : Map ℤ (Unit {0}) → ℕ
size [] = 0
size (_ ∷ m) = suc (size m)

-- `Len`
unfoldable pub len : Store → ℕ
unfolding size
len s = size s.approved
