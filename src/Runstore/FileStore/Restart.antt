-- ===== src/Runstore/FileStore/Restart.antt =====
-- What a restart finds of the records that were saved.
use agent_builder.Common.{
  ◌≡◌, refl, sym, ap, ◌∙◌, true, false, Option, none, some, List, [], ◌∷◌, ◌++◌, ℕ, nat_eq,
  append_assoc, Bool-cases, inl, inr, All, some_inj,
}
use agent_builder.Common.Int.{ℤ}
use agent_builder.Common.Text.{is_blank, trim_space, trim_left, trim_right}
use agent_builder.Runstore.{Record}
use agent_builder.Runstore.FileStore.{
  Index, Codec, Files, FileStore, apply, split_lines, replayed, replay_line, replay_next,
  replay_lines, or_before, replay_tail, with_tail, replay_journal, load_snapshot, store_of,
  new_file_store, written, contents, append_to, line_of, append_apply, save, stamp, delete_goal,
  tombstone,
}
use agent_builder.Runstore.FileStore.Lines.{
  IsOneLine, behind, split_lines-one, split_lines-ended, split_lines-append, replay_lines-append,
}

-- What the code relies on in encoding/json for a record: it reads back, and stands on one line that
-- is not blank.
pub record IsFaithful (c : Codec) (r : Record) : Type 0 where
  pub reads_back : c.unmarshal (c.marshal r) ≡ some r
  pub one_line : IsOneLine (c.marshal r)
  pub not_blank : is_blank (c.marshal r) ≡ false

-- A file system state from which a restart rebuilds the index, the journal ending in a newline.
pub record IsDurable (c : Codec) (fs : FileStore) : Type 0 where
  pub rebuilt : new_file_store c fs.files ≡ some fs
  pub ended : (split_lines (contents fs.files.journal)).1 ≡ []

-- What a restart makes of a snapshot and a journal.
restart : Codec → Option Index → List (List ℕ) × List ℕ → Option Index
unfolding replay_next with_tail
restart c base (lines, tail) =
    replay_next base (λ index. with_tail c tail (replay_lines c lines index))

restart-contents :
    (c : Codec) (files : Files)
    → new_file_store c files
      ≡ store_of files
          (restart c (load_snapshot c files.snapshot) (split_lines (contents files.journal)))
unfolding new_file_store restart replay_journal contents split_lines replay_lines with_tail
    replay_tail or_before replay_line is_blank
restart-contents c files = go (load_snapshot c files.snapshot) files.journal
  where
    go :
        (base : Option Index) (journal : Option (List ℕ))
        → store_of files (replay_next base (replay_journal c journal))
          ≡ store_of files (restart c base (split_lines (contents journal)))
    go none journal = refl
    go (some index) none = refl
    go (some index) (some data_) = refl

-- Behind a journal that ends in a newline, a restart goes on from the index of the journal.
module _ (c : Codec) (fs : FileStore) (d : IsDurable c fs) where
  index_of_store : (o : Option Index) → store_of fs.files o ≡ some fs → o ≡ some fs.index
  unfolding store_of
  index_of_store none h = absurd cc
  index_of_store (some index) h = ap (λ x. some x.index) (some_inj h)

  restart-durable :
      restart c (load_snapshot c fs.files.snapshot) (split_lines (contents fs.files.journal))
      ≡ some fs.index
  restart-durable = index_of_store _ (sym (restart-contents c fs.files) ∙ d.rebuilt)

with_tail-nil :
    (c : Codec) (o : Option Index) (index : Index) → with_tail c [] o ≡ some index → o ≡ some index
unfolding with_tail replay_tail replay_line or_before is_blank trim_space trim_left trim_right
with_tail-nil c none index h = h
with_tail-nil c (some later) index h = h

restart-more :
    (c : Codec) (base : Option Index) (ls ms : List (List ℕ)) (tail : List ℕ) (index : Index)
    → restart c base (ls, []) ≡ some index
    → restart c base (ls ++ ms, tail) ≡ with_tail c tail (replay_lines c ms index)
unfolding restart replay_next
restart-more c none ls ms tail index h = absurd cc
restart-more c (some start) ls ms tail index h = ap (with_tail c tail) (
    replay_lines-append c ls ms start
    ∙ ap (λ o. replay_next o (replay_lines c ms))
        (with_tail-nil c (replay_lines c ls start) index h))

-- The files after some more text has come to the journal.
module _ (c : Codec) (fs : FileStore) (d : IsDurable c fs) where
  restart-append :
      (more : List ℕ) (ms : List (List ℕ)) (tail : List ℕ)
      → split_lines more ≡ (ms, tail)
      → new_file_store c (append_to more fs.files)
        ≡ store_of (append_to more fs.files) (with_tail c tail (replay_lines c ms fs.index))
  unfolding append_to contents
  restart-append more ms tail e =
      let text = contents fs.files.journal in
      let start = load_snapshot c fs.files.snapshot in
      let before : restart c start ((split_lines text).0, []) ≡ some fs.index =
        ap (λ t. restart c start ((split_lines text).0, t)) (sym d.ended)
        ∙ restart-durable c fs d in
      restart-contents c (append_to more fs.files)
      ∙ ap (λ x. store_of (append_to more fs.files) (restart c start x))
          (split_lines-append text more d.ended ∙ ap (behind (split_lines text).0) e)
      ∙ ap (store_of (append_to more fs.files))
          (restart-more c start (split_lines text).0 ms tail fs.index before)

module _ (c : Codec) (r : Record) (faithful : IsFaithful c r) where
  replay-line_of :
      (index : Index)
      → with_tail c [] (replay_lines c (c.marshal r ∷ []) index) ≡ some (apply r index)
  unfolding with_tail replay_lines replay_next replay_line replayed replay_tail or_before is_blank
      trim_space trim_left trim_right
  replay-line_of index = rw (faithful.not_blank, faithful.reads_back) refl

  -- An append that fails nowhere leaves files from which a restart rebuilds the index.
  append-IsDurable : (fs : FileStore) → IsDurable c fs → IsDurable c (append_apply c written r fs).1
  unfolding append_apply line_of contents append_to store_of
  append-IsDurable fs d =
      let parts = split_lines-ended (c.marshal r) (faithful.one_line) in
      record {
        rebuilt =
            restart-append c fs d (line_of c r) (c.marshal r ∷ []) [] parts
            ∙ ap (store_of _) (replay-line_of fs.index);
        ended =
            ap (λ x. x.1) (split_lines-append (contents fs.files.journal) (line_of c r) d.ended)
            ∙ ap (λ x. x.1) parts;
      }

-- The writes that report no error.
pub data Write : Type 0 where
  saving : ℤ → Record → Write
  deleting : ℤ → List ℕ → Write

unfoldable pub write : Codec → Write → FileStore → FileStore
write c (saving now r) fs = (save c written now r fs).1
write c (deleting now id) fs = (delete_goal c written now id fs).1

-- What a write appends.
unfoldable pub appended : Write → Record
unfolding stamp tombstone
appended (saving now r) = stamp now r
appended (deleting now id) = tombstone id now

unfoldable pub write_all : Codec → List Write → FileStore → FileStore
unfolding write
write_all c [] fs = fs
write_all c (w ∷ ws) fs = write_all c ws (write c w fs)

-- The store of a new directory.
unfoldable pub empty_store : FileStore
empty_store = record { files = record { journal = none; snapshot = none }; index = [] }

module _ (c : Codec) where
  passed_over :
      (part : List ℕ) (index : Index)
      → c.unmarshal part ≡ none
      → with_tail c part (replay_lines c [] index) ≡ some index
  unfolding with_tail replay_lines replay_tail replay_line replayed or_before
  passed_over part index h = elim (Bool-cases (is_blank part)) [
    | inl blank ↦ rw blank refl
    | inr full ↦ rw (full, h) refl
  ]

  refused :
      (line : List ℕ) (index : Index)
      → c.unmarshal line ≡ none
      → is_blank line ≡ false
      → with_tail c [] (replay_lines c (line ∷ []) index) ≡ none
  unfolding with_tail replay_lines replay_next replay_line replayed
  refused line index h full = rw (full, h) refl

module _ (c : Codec) where
  write-IsDurable :
      (w : Write) (fs : FileStore)
      → IsFaithful c (appended w)
      → IsDurable c fs
      → IsDurable c (write c w fs)
  unfolding write save delete_goal appended
  write-IsDurable (saving now r) fs f d = append-IsDurable c (stamp now r) f fs d
  write-IsDurable (deleting now id) fs f d = append-IsDurable c (tombstone id now) f fs d

  write_all-IsDurable :
      (ws : List Write) (fs : FileStore)
      → All (λ w. IsFaithful c (appended w)) ws
      → IsDurable c fs
      → IsDurable c (write_all c ws fs)
  unfolding write_all
  write_all-IsDurable [] fs f d = d
  write_all-IsDurable (w ∷ ws) fs (f, more) d =
      write_all-IsDurable ws (write c w fs) more (write-IsDurable w fs f d)

  empty-IsDurable : IsDurable c empty_store
  unfolding empty_store new_file_store load_snapshot replay_next replay_journal store_of contents
      split_lines
  empty-IsDurable = record { rebuilt = refl; ended = refl }

  -- Whatever is saved and deleted without an error in a new directory, if each record reads back from
  -- the one line that it is written on, a restart rebuilds the index
  -- exactly as it is in memory; and so it does if the next append breaks off within its line, at a
  -- place where what is written does not parse as a record.
  pub restart_rebuilds :
      (ws : List Write) (part : List ℕ)
      → All (λ w. IsFaithful c (appended w)) ws
      → IsOneLine part
      → c.unmarshal part ≡ none
      → let fs = write_all c ws empty_store in
        (new_file_store c fs.files ≡ some fs)
        × (new_file_store c (append_to part fs.files)
            ≡ some (record { files = append_to part fs.files; index = fs.index }))
  unfolding store_of
  restart_rebuilds ws part f one torn =
      let fs = write_all c ws empty_store in
      let d = write_all-IsDurable ws empty_store f empty-IsDurable in
      (
        d.rebuilt,
        restart-append c fs d part [] part (split_lines-one part one)
            ∙ ap (store_of (append_to part fs.files)) (passed_over c part fs.index torn),
      )

  -- After an append that broke off so, the next Save reports no error, but the restart after it fails
  -- if the joined line does not parse: it ends in a newline, and is not passed over.
  pub torn_line_blocks :
      (ws : List Write) (part : List ℕ) (r : Record) (now : ℤ)
      → All (λ w. IsFaithful c (appended w)) ws
      → IsOneLine (part ++ c.marshal (stamp now r))
      → c.unmarshal (part ++ c.marshal (stamp now r)) ≡ none
      → is_blank (part ++ c.marshal (stamp now r)) ≡ false
      → let fs = write_all c ws empty_store in
        let torn : FileStore = record { files = append_to part fs.files; index = fs.index } in
        let (no_error, after) = save c written now r torn in
        (no_error ≡ true) × (new_file_store c after.files ≡ none)
  unfolding save append_apply line_of store_of append_to contents
  torn_line_blocks ws part r now f one torn full =
      let fs = write_all c ws empty_store in
      let d = write_all-IsDurable ws empty_store f empty-IsDurable in
      let line = c.marshal (stamp now r) in
      let joined =
        append_assoc (contents fs.files.journal) part (line ++ (b'\n' ∷ []))
        ∙ ap (λ t. contents fs.files.journal ++ t) (sym (append_assoc part line (b'\n' ∷ []))) in
      (
        refl,
        ap (λ t. new_file_store c (record fs.files { journal = some t })) joined
            ∙ restart-append c fs d ((part ++ line) ++ (b'\n' ∷ [])) ((part ++ line) ∷ []) []
                (split_lines-ended (part ++ line) one)
            ∙ ap (store_of _) (refused c (part ++ line) fs.index torn full),
      )
