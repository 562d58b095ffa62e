-- ===== src/Storage/Apply.antt =====
-- internal/storage/transaction.go: `commitStaged`, `finish`, and `EnsureDirectory` of
-- internal/storage/workspace.go.
use ssh_ui.Base.{
  ℕ, zero, suc, Bool, ◌||◌, Option, none, some, List, [], ◌∷◌, ◌++◌, Bytes, str_eq, if◌then◌else◌,
  lookup, length, codes, split_byte, has_prefix,
}
use ssh_ui.Storage.Record.{
  Action, write, move, make_dir, remove_dir, note, Entry, Record, Status, advance,
}
use ssh_ui.Storage.World.{
  Node, file, directory, symlink, outside_workspace, symlink_path, not_directory, Io, ◌>>◌, pure,
  fail, dir_of, rename, remove_path, remove_if_present, sync_dir, write_journal, write_history,
  remove_journal, make_directory,
}

unfoldable pub skip : ℕ → List Bytes → List Bytes
skip zero parts = parts
skip (suc n) [] = []
skip (suc n) (p ∷ ps) = skip n ps

-- `Contains`, for a clean path
unfoldable pub contains : Bytes → Bytes → Bool
contains root path = str_eq path root || has_prefix path (root ++ codes "/")

unfoldable pub ensure_node : Bytes → Option Node → Io (Unit {0})
ensure_node path none = make_directory path
ensure_node path (some symlink) = fail symlink_path
ensure_node path (some directory) = pure tt
ensure_node path (some (file _ _)) = fail not_directory

-- the loop over the segments below the root; `current` is the path so far
unfoldable pub ensure_segments : Bytes → List Bytes → Io (Unit {0})
ensure_segments current [] = pure tt
ensure_segments current (s ∷ ss) = do
  let next = current ++ (codes "/" ++ s)
  (λ w. ensure_node next (lookup next w.disk) w)
  ensure_segments next ss

-- `EnsureDirectory`, for a root that is there already
unfoldable pub ensure_directory : Bytes → Bytes → Io (Unit {0})
unfolding ensure_segments ensure_node contains skip
ensure_directory root path =
    if contains root path
    then ensure_segments root (skip (length (split_byte b'/' root)) (split_byte b'/' path))
    else fail outside_workspace

unfoldable pub drop_entries : ℕ → List Entry → List Entry
drop_entries zero es = es
drop_entries (suc n) [] = []
drop_entries (suc n) (e ∷ es) = drop_entries n es

module _ (root : Bytes) where
  -- one round of `commitStaged`, by the action of the entry; `default` is a write
  unfoldable pub commit_action : Action → Entry → Io (Unit {0})
  unfolding ensure_directory
  commit_action move e = do
    rename e.path e.target
    sync_dir (dir_of e.path)
    sync_dir (dir_of e.target)
  commit_action Action.remove e = do remove_path e.path; sync_dir (dir_of e.path)
  commit_action make_dir e = do ensure_directory root e.path; sync_dir (dir_of e.path)
  commit_action remove_dir e = do remove_if_present e.path; sync_dir (dir_of e.path)
  commit_action write e = do rename e.temp e.path; sync_dir (dir_of e.path)
  commit_action note e = do rename e.temp e.path; sync_dir (dir_of e.path)

  -- `commitStaged`: the entries that are not recorded as committed, each recorded when it is done
  unfoldable pub commit_entries : List Entry → Record → Io Record
  unfolding commit_action
  commit_entries [] r = pure r
  commit_entries (e ∷ es) r = do
    commit_action e.action e
    write_journal (advance r)
    commit_entries es (advance r)

  unfoldable pub commit_staged : Record → Io Record
  unfolding commit_entries drop_entries
  commit_staged r = commit_entries (drop_entries r.committed r.entries) r

  -- the journal document is kept under the identifier of its record, which stands for its path
  unfoldable pub finish : Record → Status → Io (Unit {0})
  finish r status = do
    write_history (record r { status = status })
    remove_journal r.id
    sync_dir root
