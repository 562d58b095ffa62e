-- ===== src/Storage/Planning.antt =====
-- internal/storage/workspace.go: the checks of paths that `Commit` makes before it changes anything,
-- and the first of its loops, over the directories. They only read, so they are functions of the
-- world. A directory of the model of the disk has the permission that the program gives its own.
use Prim.Native.Nat.{◌/◌, ◌%◌}
use ssh_ui.Base.{
  ℕ, zero, suc, ◌*◌, Bool, true, false, not, ◌&&◌, ◌||◌, Option, none, some, List, [], ◌∷◌, ◌++◌,
  Bytes, codes, str_eq, if◌then◌else◌, length, clean, is_abs, split_byte, Result, ok, err, ◌>>=◌,
  ◌>>◌, guard, lookup,
}
use ssh_ui.Config.Graph.{slices_contains}
use ssh_ui.Storage.Record.{Action, make_dir, Entry}
use ssh_ui.Storage.World.{
  Node, file, directory, symlink, io_failure, not_regular, not_directory, symlink_path,
  outside_workspace, World,
}
use ssh_ui.Storage.Apply.{skip, contains}
use ssh_ui.Storage.Request.{CommitError, duplicate_path, missing_directory, storage}

abbrev pub file_permission : ℕ
file_permission = 384

abbrev pub directory_permission : ℕ
directory_permission = 448

-- `Mode().Perm() & FilePermission`: the bits 7 and 8
unfoldable pub masked : ℕ → ℕ
masked mode = (mode / 128) % 4 * 128

-- what the loops of `Commit` fill
pub record Progress : Type 0 where
  pub entries : List Entry
  pub staged_contents : List Bytes
  pub previous_contents : List Bytes
  pub written : List Bytes
  pub claimed : List Bytes

unfoldable pub claim : Bytes → Progress → Result CommitError Progress
unfolding slices_contains
claim path p = do
  guard (not (slices_contains p.claimed path)) duplicate_path
  ok (record p { claimed = path ∷ p.claimed })

abbrev pub push : Entry → Bytes → Bytes → Progress → Progress
push e staged previous p = record p {
  entries = p.entries ++ (e ∷ []);
  staged_contents = p.staged_contents ++ (staged ∷ []);
  previous_contents = p.previous_contents ++ (previous ∷ []);
}

abbrev pub wrote : Bytes → Progress → Progress
wrote path p = record p { written = p.written ++ (path ∷ []) }

abbrev pub blank_entry : Action → Bytes → Entry
blank_entry action path = record {
  action = action;
  path = path;
  target = [];
  temp = [];
  backup = [];
  no_backup = false;
  had_previous = true;
  mode = 0;
  digest = [];
  previous_digest = [];
}

-- Lstat; a process that was killed reads nothing
unfoldable pub stat : World → Bytes → Result CommitError (Option Node)
stat w path = elim w.budget [ zero ↦ err (storage io_failure) | suc b ↦ ok (lookup path w.disk) ]

unfoldable pub is_last : List Bytes → Bool
is_last [] = true
is_last (s ∷ ss) = false

module _ (root : Bytes) (w : World) where
  -- one round of the loop of `ResolveForWriteUnder`
  write_node : List Bytes → Bytes → Bool → Option Node → Result CommitError (Unit {0})
  unfolding slices_contains
  write_node planned current last none =
      guard (last || slices_contains planned current) missing_directory
  write_node planned current last (some symlink) = err (storage symlink_path)
  write_node planned current last (some (file _ _)) = guard last (storage not_directory)
  write_node planned current last (some directory) = guard (not last) (storage not_regular)

  unfoldable pub write_segments : List Bytes → Bytes → List Bytes → Result CommitError (Unit {0})
  unfolding write_node stat
  write_segments planned current [] = ok tt
  write_segments planned current (s ∷ ss) = do
    let next = current ++ (codes "/" ++ s)
    found ← stat w next
    write_node planned next (is_last ss) found
    write_segments planned next ss

  unfoldable pub segments_of : Bytes → List Bytes
  unfolding skip split_byte
  segments_of path = skip (length (split_byte b'/' root)) (split_byte b'/' path)

  unfoldable pub is_inside : Bytes → Bool
  is_inside cleaned = is_abs cleaned && (contains root cleaned && not (str_eq cleaned root))

  unfoldable pub resolve_for_write_under : List Bytes → Bytes → Result CommitError Bytes
  unfolding write_segments segments_of is_inside clean
  resolve_for_write_under planned candidate = do
    let cleaned = clean candidate
    guard (is_inside cleaned) (storage outside_workspace)
    write_segments planned root (segments_of cleaned)
    ok cleaned

  -- the loop of `ResolveDirectory`, which ends where nothing is
  directory_node : Option Node → Result CommitError Bool
  directory_node none = ok true
  directory_node (some symlink) = err (storage symlink_path)
  directory_node (some directory) = ok false
  directory_node (some (file _ _)) = err (storage not_directory)

  unfoldable pub directory_segments : Bytes → List Bytes → Result CommitError (Unit {0})
  unfolding directory_node stat
  directory_segments current [] = ok tt
  directory_segments current (s ∷ ss) = do
    let next = current ++ (codes "/" ++ s)
    found ← stat w next
    ends ← directory_node found
    let rest = directory_segments next ss
    if ends then ok tt else rest

  unfoldable pub resolve_directory : Bytes → Result CommitError Bytes
  unfolding directory_segments segments_of is_inside clean
  resolve_directory candidate = do
    let cleaned = clean candidate
    guard (is_inside cleaned) (storage outside_workspace)
    directory_segments root (segments_of cleaned)
    ok cleaned

  -- the path and its ancestors below the root
  ancestors : Bytes → List Bytes → List Bytes
  ancestors current [] = []
  ancestors current (s ∷ ss) = let next = current ++ (codes "/" ++ s) in next ∷ ancestors next ss

  unfoldable pub planned_directories : List Bytes → Result CommitError (List Bytes)
  unfolding resolve_directory ancestors segments_of
  planned_directories [] = ok []
  planned_directories (d ∷ ds) = do
    cleaned ← resolve_directory d
    rest ← planned_directories ds
    ok (ancestors root (segments_of cleaned) ++ rest)

  unfoldable pub is_there : Option Node → Bool
  is_there none = false
  is_there (some n) = true

  unfoldable pub plan_directories : List Bytes → Progress → Result CommitError Progress
  unfolding resolve_directory claim stat is_there
  plan_directories [] p = ok p
  plan_directories (d ∷ ds) p = do
    target ← resolve_directory d
    q ← claim target p
    found ← stat w target
    plan_directories ds (
        push
          (record (blank_entry make_dir target) {
            had_previous = is_there found;
            mode = directory_permission;
          })
          [] [] q)
