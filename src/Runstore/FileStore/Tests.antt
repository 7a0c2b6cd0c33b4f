-- ===== src/Runstore/FileStore/Tests.antt =====
-- A file store whose records are written as one letter.
use agent_builder.Common.{◌≡◌, refl, true, false, none, some, [], ◌∷◌, ◌==◌, if◌then◌else◌, nat_eq}
use agent_builder.Common.Int.{pos}
use agent_builder.Common.Text.{
  codes, text_eq, is_blank, trim_space, trim_left, trim_right, is_space,
}
use agent_builder.Runstore.{Record, running}
use agent_builder.Runstore.FileStore.{
  Codec, FileStore, append_to, new_file_store, save, written, stamp, stamped,
}
use agent_builder.Runstore.FileStore.Lines.{IsOneLine}
use agent_builder.Runstore.FileStore.Restart.{
  IsFaithful, saving, appended, write_all, empty_store, restart_rebuilds, torn_line_blocks,
}

abbrev first : Record
first = record {
  goal_id = codes "g";
  goal = codes "build";
  plan = none;
  attempts = [];
  pending_approvals = [];
  status = running;
  created_at = some (pos 1);
  updated_at = pos 1;
  deleted = false;
  attempt = pos 1;
}

abbrev one_record : Codec
unfolding text_eq
one_record = record {
  marshal = λ r. codes "r";
  unmarshal = λ s. if s == codes "r" then some first else none;
  marshal_index = λ index. [];
  unmarshal_index = λ s. none;
}

one_record_lem : IsFaithful one_record (appended (saving (pos 1) first))
unfolding IsOneLine appended stamp stamped text_eq is_blank trim_space trim_left trim_right is_space
    nat_eq
one_record_lem = record { reads_back = refl; one_line = (refl, tt); not_blank = refl }

restart_rebuilds_example :
    let fs = write_all one_record (saving (pos 1) first ∷ []) empty_store in
    (new_file_store one_record fs.files ≡ some fs)
    × (new_file_store one_record (append_to (codes "{") fs.files)
        ≡ some (record { files = append_to (codes "{") fs.files; index = fs.index }))
unfolding IsOneLine text_eq nat_eq
restart_rebuilds_example =
    restart_rebuilds one_record (saving (pos 1) first ∷ []) (codes "{") (one_record_lem, tt)
      (refl, tt) refl

torn_line_blocks_example :
    let fs = write_all one_record (saving (pos 1) first ∷ []) empty_store in
    let torn : FileStore = record { files = append_to (codes "{") fs.files; index = fs.index } in
    let (no_error, after) = save one_record written (pos 2) first torn in
    (no_error ≡ true) × (new_file_store one_record after.files ≡ none)
unfolding IsOneLine text_eq is_blank trim_space trim_left trim_right is_space nat_eq
torn_line_blocks_example =
    torn_line_blocks one_record (saving (pos 1) first ∷ []) (codes "{") first (pos 2)
      (one_record_lem, tt) (refl, (refl, tt)) refl refl
