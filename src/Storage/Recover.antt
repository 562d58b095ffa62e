-- ===== src/Storage/Recover.antt =====
-- internal/storage/journal.go: what is offered for an interrupted transaction, its completion and
-- its rollback. The content hash and the opening of a sealed backup are parameters.
pub mod Frame
pub mod Untouched
pub mod Crash
use ssh_ui.Base.{
  ℕ, zero, suc, ◌+◌, Bool, true, false, not, ◌&&◌, ◌||◌, Option, none, some, List, [], ◌∷◌, ◌++◌,
  Bytes, str_eq, ltb, if◌then◌else◌, Dict, lookup, length, get_elem?, codes, contains_byte,
}
use ssh_ui.Storage.Record.{
  Action, write, move, make_dir, remove_dir, note, Entry, Record, Status, completed, rolled_back,
}
use ssh_ui.Storage.World.{
  Node, file, directory, symlink, StorageError, io_failure, cannot_complete, irreversible_removal,
  irreversible_change, unknown_transaction, unseal_failed, not_directory, not_exist, World, Reply,
  done, failed, Io, ◌>>=◌, ◌>>◌, pure, fail, dir_of, is_occupied, rename, remove_path,
  remove_if_present, sync_dir, write_file, read_file,
}
use ssh_ui.Storage.Apply.{ensure_directory, commit_staged, drop_entries, finish}

unfoldable pub is_write : Action → Bool
is_write write = true
is_write _ = false

unfoldable pub is_removal : Action → Bool
is_removal Action.remove = true
is_removal _ = false

-- The two kinds of committed entries that cannot be rolled back.
unfoldable pub irreversible : Entry → Option StorageError
unfolding is_write is_removal
irreversible e =
    if is_removal e.action && e.no_backup
    then some irreversible_removal
    else if is_write e.action && (e.had_previous && e.no_backup)
    then some irreversible_change
    else none

-- the first loop of `Rollback`, over the committed entries
unfoldable pub first_irreversible : ℕ → List Entry → Option StorageError
unfolding irreversible
first_irreversible zero es = none
first_irreversible (suc n) [] = none
first_irreversible (suc n) (e ∷ es) = elim (irreversible e) [
  | some why ↦ some why
  | none ↦ first_irreversible n es
]

unfoldable pub has_bad_byte : Bytes → Bool
has_bad_byte [] = false
has_bad_byte (c ∷ []) = false
has_bad_byte (c ∷ d ∷ cs) = elim (str_eq (c ∷ d ∷ []) (codes "..")) [
  | true ↦ true
  | false ↦ has_bad_byte (d ∷ cs)
]

unfoldable pub found_pending : Option Record → Io Record
found_pending none = fail unknown_transaction
found_pending (some r) = pure r

-- `loadPending`: an identifier names a document of the journal and no other path
unfoldable pub load_pending : Bytes → Io Record
unfolding found_pending has_bad_byte
load_pending id =
    if str_eq id [] || contains_byte b'/' id || has_bad_byte id
    then fail unknown_transaction
    else λ w. found_pending (lookup id w.journal) w

module _ (root : Bytes) (hash : Bytes → Bytes) (unseal : Bytes → Option Bytes) where
  unfoldable pub matches_digest : Bytes → Option Node → Bool
  matches_digest digest (some (file contents mode)) = str_eq (hash contents) digest
  matches_digest digest _ = false

  unfoldable pub staged_matches : World → Entry → Bool
  unfolding matches_digest
  staged_matches w e = not (str_eq e.temp []) && matches_digest e.digest (lookup e.temp w.disk)

  -- the loop of `Complete` over the entries that are left
  unfoldable pub all_staged : World → List Entry → Bool
  unfolding staged_matches
  all_staged w [] = true
  all_staged w (e ∷ es) = (not (is_write e.action) || staged_matches w e) && all_staged w es

  unfoldable pub complete : Bytes → Io (Unit {0})
  unfolding all_staged load_pending commit_staged finish drop_entries
  complete id = do
    r ← load_pending id
    (λ w.
        if all_staged w (drop_entries r.committed r.entries)
        then pure tt w
        else fail cannot_complete w)
    r' ← commit_staged root r
    finish root r' completed

  unfoldable pub opened : Option Bytes → Io Bytes
  opened none = fail unseal_failed
  opened (some contents) = pure contents

  unfoldable pub read_backup : Bytes → Io Bytes
  unfolding opened
  read_backup path = do sealed ← read_file path; opened (unseal sealed)

  -- a directory that the transaction made goes only if it is empty
  unfoldable pub undo_directory : Bytes → Option Node → Bool → Io (Unit {0})
  undo_directory path none occupied = pure tt
  undo_directory path (some directory) true = pure tt
  undo_directory path (some directory) false = do remove_if_present path; sync_dir (dir_of path)
  undo_directory path (some _) occupied = fail not_directory

  unfoldable pub restore : Entry → Io (Unit {0})
  restore e =
      if e.had_previous
      then (do contents ← read_backup e.backup; write_file e.path contents e.mode)
      else (do remove_if_present e.path; sync_dir (dir_of e.path))

  -- one round of the second loop of `Rollback`, by the action of the entry
  unfoldable pub undo_action : Action → Entry → Io (Unit {0})
  unfolding undo_directory restore read_backup
  undo_action move e = do
    rename e.target e.path
    sync_dir (dir_of e.target)
    sync_dir (dir_of e.path)
  undo_action make_dir e = λ w.
      (if e.had_previous
          then pure tt
          else undo_directory e.path (lookup e.path w.disk) (is_occupied e.path w.disk))
        w
  undo_action remove_dir e = do ensure_directory root e.path; sync_dir (dir_of e.path)
  undo_action write e = restore e
  undo_action Action.remove e = restore e
  undo_action note e = restore e

  unfoldable pub undo_found : Option Entry → Io (Unit {0})
  undo_found none = pure tt
  undo_found (some e) = undo_action e.action e

  -- the second loop of `Rollback`, from the last committed entry down to the first
  unfoldable pub undo_entries : ℕ → List Entry → Io (Unit {0})
  unfolding undo_found undo_action
  undo_entries zero es = pure tt
  undo_entries (suc n) es = do undo_found (get_elem? es n); undo_entries n es

  -- the third loop: what is staged is thrown away
  unfoldable pub remove_temps : List Entry → Io (Unit {0})
  remove_temps [] = pure tt
  remove_temps (e ∷ es) = do
    (if str_eq e.temp [] then pure tt else remove_if_present e.temp)
    remove_temps es

  unfoldable pub rollback_unless : Option StorageError → Record → Io (Unit {0})
  rollback_unless (some why) r = fail why
  rollback_unless none r = do
    undo_entries r.committed r.entries
    remove_temps r.entries
    finish root (record r { committed = 0 }) rolled_back

  unfoldable pub rollback : Bytes → Io (Unit {0})
  unfolding rollback_unless undo_entries remove_temps first_irreversible load_pending finish
  rollback id = do r ← load_pending id; rollback_unless (first_irreversible r.committed r.entries) r
