-- ===== src/Runstore/FileStore.antt =====
-- internal/runstore/filestore.go: the journal file, the snapshot file and the index that they
-- determine. A file is what os.ReadFile reads: `none` if it does not exist. json.Marshal and
-- json.Unmarshal of a record, and of a map of records, are arguments.
use agent_builder.Common.{
  Bool, true, false, Option, none, some, List, [], ◌∷◌, ◌++◌, ℕ, ◌==◌, ◌||◌, not, if◌then◌else◌,
  nat_eq,
}
use agent_builder.Common.Int.{pos, ℤ}
use agent_builder.Common.Map.{Map, lookup, insert, delete}
use agent_builder.Common.Text.{text_eq, is_empty, is_blank}
use agent_builder.Router.{lt_text}
use agent_builder.Runstore.{Record, is_terminal, unset}
pub mod Lines
pub mod Restart
mod Tests

abbrev pub Index : Type 0
Index = Map (List ℕ) Record

pub record Codec : Type 0 where
  pub marshal : Record → List ℕ
  pub unmarshal : List ℕ → Option Record
  pub marshal_index : Index → List ℕ
  pub unmarshal_index : List ℕ → Option Index

-- The two files of the directory, and the index in memory.
pub record Files : Type 0 where
  pub journal : Option (List ℕ)
  pub snapshot : Option (List ℕ)

pub record FileStore : Type 0 where
  pub files : Files
  pub index : Index

unfoldable pub apply : Record → Index → Index
unfolding insert delete text_eq
apply r index = if r.deleted then delete r.goal_id index else insert r.goal_id r index

unfoldable pub apply_all : List (List ℕ × Record) → Index → Index
unfolding apply
apply_all [] index = index
apply_all ((_, r) ∷ rs) index = apply_all rs (apply r index)

unfoldable pub snapshot_of : Option Index → Option Index
unfolding apply_all
snapshot_of none = none
snapshot_of (some entries) = some (apply_all entries [])

-- `none` is an error; so are the other functions that read.
unfoldable pub load_snapshot : Codec → Option (List ℕ) → Option Index
unfolding snapshot_of
load_snapshot c none = some []
load_snapshot c (some []) = some []
load_snapshot c (some (b ∷ data_)) = snapshot_of (c.unmarshal_index (b ∷ data_))

-- The lines that end in a newline, and what stands behind the last newline.
unfoldable pub onto_line : ℕ → List (List ℕ) × List ℕ → List (List ℕ) × List ℕ
onto_line b ([], tail) = ([], b ∷ tail)
onto_line b (l ∷ ls, tail) = ((b ∷ l) ∷ ls, tail)

unfoldable pub split_lines : List ℕ → List (List ℕ) × List ℕ
unfolding onto_line nat_eq
split_lines [] = ([], [])
split_lines (b ∷ s) =
    let (lines, tail) = split_lines s in
    let longer = onto_line b (lines, tail) in if b == b'\n' then ([] ∷ lines, tail) else longer

unfoldable pub replayed : Option Record → Index → Option Index
unfolding apply
replayed none index = none
replayed (some r) index = some (apply r index)

unfoldable pub replay_line : Codec → List ℕ → Index → Option Index
unfolding replayed is_blank
replay_line c line index = if is_blank line then some index else replayed (c.unmarshal line) index

unfoldable pub replay_next : Option Index → (Index → Option Index) → Option Index
replay_next none next = none
replay_next (some index) next = next index

unfoldable pub replay_lines : Codec → List (List ℕ) → Index → Option Index
unfolding replay_line replay_next
replay_lines c [] index = some index
replay_lines c (line ∷ lines) index = replay_next (replay_line c line index) (replay_lines c lines)

unfoldable pub or_before : Option Index → Index → Index
or_before none index = index
or_before (some later) index = later

-- The last line, if no newline ends it: one that does not parse is passed over.
unfoldable pub replay_tail : Codec → List ℕ → Index → Index
unfolding replay_line or_before
replay_tail c tail index = or_before (replay_line c tail index) index

unfoldable pub with_tail : Codec → List ℕ → Option Index → Option Index
unfolding replay_tail
with_tail c tail none = none
with_tail c tail (some index) = some (replay_tail c tail index)

unfoldable pub replay_journal : Codec → Option (List ℕ) → Index → Option Index
unfolding replay_lines with_tail split_lines
replay_journal c none index = some index
replay_journal c (some data_) index =
    let (lines, tail) = split_lines data_ in with_tail c tail (replay_lines c lines index)

unfoldable pub store_of : Files → Option Index → Option FileStore
store_of files none = none
store_of files (some index) = some (record { files = files; index = index })

-- The directory exists or is made before.
unfoldable pub new_file_store : Codec → Files → Option FileStore
unfolding load_snapshot replay_journal replay_next store_of
new_file_store c files =
    store_of files (replay_next (load_snapshot c files.snapshot) (replay_journal c files.journal))

-- What a write to the journal comes to: it fails having written some of the line, or all of it.
pub data Append : Type 0 where
  written : Append
  failed_after : List ℕ → Append

unfoldable pub contents : Option (List ℕ) → List ℕ
contents none = []
contents (some data_) = data_

unfoldable pub append_to : List ℕ → Files → Files
unfolding contents
append_to line files = record files { journal = some (contents files.journal ++ line) }

unfoldable pub line_of : Codec → Record → List ℕ
line_of c r = c.marshal r ++ (b'\n' ∷ [])

-- appendLine and the apply behind it; the Boolean is whether there is no error.
unfoldable pub append_apply : Codec → Append → Record → FileStore → Bool × FileStore
unfolding append_to line_of apply
append_apply c written r fs =
    (true, record { files = append_to (line_of c r) fs.files; index = apply r fs.index })
append_apply c (failed_after part) r fs = (false, record fs { files = append_to part fs.files })

unfoldable pub stamped : ℤ → Option ℤ → ℤ
stamped now none = now
stamped now (some t) = t

-- The times that Save sets.
unfoldable pub stamp : ℤ → Record → Record
unfolding stamped
stamp now r = record r { created_at = some (stamped now r.created_at); updated_at = now }

unfoldable pub save : Codec → Append → ℤ → Record → FileStore → Bool × FileStore
unfolding append_apply stamp
save c outcome now r fs = append_apply c outcome (stamp now r) fs

unfoldable pub load : List ℕ → FileStore → Option Record
unfolding lookup text_eq
load id fs = lookup id fs.index

unfoldable pub tombstone : List ℕ → ℤ → Record
tombstone id now = record {
  goal_id = id;
  goal = [];
  plan = none;
  attempts = [];
  pending_approvals = [];
  status = unset;
  created_at = none;
  updated_at = now;
  deleted = true;
  attempt = pos 0;
}

unfoldable pub delete_goal : Codec → Append → ℤ → List ℕ → FileStore → Bool × FileStore
unfolding append_apply tombstone
delete_goal c outcome now id fs = append_apply c outcome (tombstone id now) fs

-- The records that are not terminal; sort.Slice orders them by goal.
unfoldable pub in_flight : Index → List Record
unfolding is_terminal
in_flight [] = []
in_flight ((_, r) ∷ index) =
    let rest = in_flight index in if is_terminal r.status then rest else r ∷ rest

unfoldable pub insert_by_goal : Record → List Record → List Record
unfolding lt_text
insert_by_goal r [] = r ∷ []
insert_by_goal r (s ∷ ss) =
    let rest = insert_by_goal r ss in if lt_text s.goal_id r.goal_id then s ∷ rest else r ∷ s ∷ ss

unfoldable pub by_goal : List Record → List Record
unfolding insert_by_goal
by_goal [] = []
by_goal (r ∷ rs) = insert_by_goal r (by_goal rs)

unfoldable pub list_in_flight : FileStore → List Record
unfolding in_flight by_goal
list_in_flight fs = by_goal (in_flight fs.index)

-- How far Compact gets: the temporary file fails, the rename fails, the truncation fails, or none does.
pub data Compaction : Type 0 where
  before_rename before_truncate compacted : Compaction

-- os.Truncate to no bytes, whose error on a file that does not exist is passed over.
unfoldable pub truncated : Option (List ℕ) → Option (List ℕ)
truncated none = none
truncated (some _) = some []

unfoldable pub compact : Codec → Compaction → FileStore → Bool × FileStore
unfolding truncated
compact c before_rename fs = (false, fs)
compact c before_truncate fs =
    (false, record fs { files = record fs.files { snapshot = some (c.marshal_index fs.index) } })
compact c compacted fs = (
  true,
  record fs {
    files = record {
      journal = truncated fs.files.journal;
      snapshot = some (c.marshal_index fs.index);
    };
  },
)
