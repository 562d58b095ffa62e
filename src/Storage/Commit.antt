-- ===== src/Storage/Commit.antt =====
-- internal/storage/transaction.go: the loops of `Commit` that make the entries of the journal out of
-- a request, up to its validation. The digest of contents and the validation are parameters.
pub mod Checked
pub mod Claims
use ssh_ui.Base.{
  length, ℕ, zero, suc, ◌+◌, Bool, true, false, not, ◌&&◌, ◌||◌, Option, none, some, List, [], ◌∷◌,
  ◌++◌, Bytes, codes, ◌==◌, ltb, str_eq, if◌then◌else◌, Result, ok, err, ◌>>=◌, ◌>>◌, guard, Dict,
  lookup,
}
use ssh_ui.Config.Graph.{slices_contains}
use ssh_ui.Storage.Record.{Action, write, move, remove_dir, Entry}
use ssh_ui.Storage.World.{
  Node, file, directory, symlink, file_too_large, not_regular, not_directory, symlink_path, World,
  dir_of,
}
use ssh_ui.Storage.Request.{
  Expectation, FileChange, FileMove, FileRemoval, Request, CommitError, no_changes,
  move_target_exists, missing_source, directory_not_empty, conflict, refused, storage,
}
use ssh_ui.Storage.Planning.{
  file_permission, directory_permission, masked, Progress, claim, push, wrote, blank_entry, stat,
  resolve_for_write_under, resolve_directory, planned_directories, plan_directories,
}

-- `MaxFileSize`: more is not read
abbrev pub max_file_size : ℕ
max_file_size = 1048576

-- `currentState`, as the contents and the mode of the file that is there
unfoldable pub state_of : Option Node → Result CommitError (Option (Bytes × ℕ))
unfolding masked
state_of none = ok none
state_of (some (file contents mode)) =
    if ltb max_file_size (length contents)
    then err (storage file_too_large)
    else ok (some (contents, masked mode))
state_of (some symlink) = err (storage symlink_path)
state_of (some directory) = err (storage not_regular)

unfoldable pub current_state : World → Bytes → Result CommitError (Option (Bytes × ℕ))
unfolding state_of stat
current_state w path = do found ← stat w path; state_of found

unfoldable pub expected : Expectation → Bytes
expected e = if e.exists then e.digest else []

unfoldable pub contents_in : Option (Bytes × ℕ) → Bytes
contents_in none = []
contents_in (some (contents, mode)) = contents

mode_at : Option (Bytes × ℕ) → ℕ
mode_at none = file_permission
mode_at (some (contents, mode)) = mode

is_some : Option (Bytes × ℕ) → Bool
is_some none = false
is_some (some state) = true

unfoldable pub is_free : Option Node → Bool
is_free none = true
is_free (some n) = false

-- the paths right below a directory, as `ReadDir` names them
unfoldable pub children_of : Bytes → Dict Node → List Bytes
unfolding dir_of
children_of path [] = []
children_of path ((p, n) ∷ d) =
    let rest = children_of path d in if str_eq (dir_of p) path then p ∷ rest else rest

unfoldable pub all_claimed : List Bytes → List Bytes → Bool
unfolding slices_contains
all_claimed claimed [] = true
all_claimed claimed (c ∷ cs) = slices_contains claimed c && all_claimed claimed cs

count_separators : Bytes → ℕ
count_separators [] = 0
count_separators (c ∷ cs) = let rest = count_separators cs in if c == b'/' then suc rest else rest

-- a stable sort: in front of those that are as deep
insert_deep : Bytes → List Bytes → List Bytes
unfolding count_separators
insert_deep d [] = d ∷ []
insert_deep d (e ∷ es) =
    let rest = insert_deep d es in
    if ltb (count_separators d) (count_separators e) then e ∷ rest else d ∷ e ∷ es

unfoldable pub deepest_first : List Bytes → List Bytes
unfolding insert_deep
deepest_first [] = []
deepest_first (d ∷ ds) = insert_deep d (deepest_first ds)

is_nil {ℓ} : {A : Type ℓ} → List A → Bool
is_nil [] = true
is_nil (x ∷ xs) = false

module _ (digest : Bytes → Bytes) (root : Bytes) (w : World) where
  unfoldable pub actual : Option (Bytes × ℕ) → Bytes
  actual none = []
  actual (some (contents, mode)) = digest contents

  -- `actual != expected`
  unfoldable pub check :
      Bytes → Expectation → Bytes → Option (Bytes × ℕ) → Result CommitError (Unit {0})
  unfolding expected actual
  check path e current state =
      guard (str_eq (actual state) (expected e)) (conflict path (expected e) (actual state) current)

  unfoldable pub change_entry : FileChange → Bytes → Option (Bytes × ℕ) → Entry
  unfolding is_some mode_at actual
  change_entry c target state = record (blank_entry write target) {
    no_backup = c.skip_backup;
    had_previous = is_some state;
    mode = mode_at state;
    digest = digest c.contents;
    previous_digest = actual state;
  }

  unfoldable pub plan_changes :
      List Bytes → List FileChange → Progress → Result CommitError Progress
  unfolding resolve_for_write_under claim current_state check change_entry contents_in
  plan_changes planned [] p = ok p
  plan_changes planned (c ∷ cs) p = do
    target ← resolve_for_write_under root w planned c.path
    q ← claim target p
    state ← current_state w target
    check target c.precondition (contents_in state) state
    plan_changes planned cs
        (wrote target (push (change_entry c target state) c.contents (contents_in state) q))

  -- a file that is not there has no digest to compare
  unfoldable pub known : Bytes → Expectation → Option (Bytes × ℕ) → Result CommitError (Bytes × ℕ)
  unfolding check
  known path e none = err missing_source
  known path e (some (contents, mode)) = do
    check path e [] (some (contents, mode))
    ok (digest contents, mode)

  unfoldable pub source_state : Bytes → Expectation → Result CommitError (Bytes × ℕ)
  unfolding current_state known
  source_state path e = do state ← current_state w path; known path e state

  unfoldable pub plan_moves : List Bytes → List FileMove → Progress → Result CommitError Progress
  unfolding resolve_for_write_under claim stat is_free source_state
  plan_moves planned [] p = ok p
  plan_moves planned (m ∷ ms) p = do
    source ← resolve_for_write_under root w [] m.from
    target ← resolve_for_write_under root w planned m.to
    q ← claim source p
    r ← claim target q
    found ← stat w target
    guard (is_free found) move_target_exists
    state ← source_state source m.precondition
    plan_moves planned ms (
        wrote target (
          push
            (record (blank_entry move source) {
              target = target;
              mode = state.1;
              digest = state.0;
              previous_digest = state.0;
            })
            [] [] r))

  unfoldable pub backup_of : Bool → Bytes → Result CommitError Bytes
  unfolding current_state contents_in
  backup_of false path = ok []
  backup_of true path = do state ← current_state w path; ok (contents_in state)

  unfoldable pub plan_removals : List FileRemoval → Progress → Result CommitError Progress
  unfolding resolve_for_write_under claim source_state backup_of
  plan_removals [] p = ok p
  plan_removals (x ∷ xs) p = do
    target ← resolve_for_write_under root w [] x.path
    q ← claim target p
    state ← source_state target x.precondition
    previous ← backup_of x.backup target
    plan_removals xs (
        wrote target (
          push
            (record (blank_entry Action.remove target) {
              no_backup = not x.backup;
              mode = state.1;
              digest = state.0;
              previous_digest = state.0;
            })
            [] previous q))

  unfoldable pub remove_node : Bytes → Option Node → Progress → Result CommitError Progress
  unfolding children_of all_claimed
  remove_node target none p = ok p
  remove_node target (some directory) p = do
    guard (all_claimed p.claimed (children_of target w.disk)) directory_not_empty
    ok (push (record (blank_entry remove_dir target) { mode = directory_permission }) [] [] p)
  remove_node target (some n) p = err (storage not_directory)

  -- the mode of a removed directory is that of the directories the program makes, the only one
  -- that a directory has here
  unfoldable pub plan_remove_directories : List Bytes → Progress → Result CommitError Progress
  unfolding resolve_directory claim stat remove_node
  plan_remove_directories [] p = ok p
  plan_remove_directories (d ∷ ds) p = do
    target ← resolve_directory root w d
    q ← claim target p
    found ← stat w target
    r ← remove_node target found q
    plan_remove_directories ds r

  unfoldable pub is_empty : Request → Bool
  unfolding is_nil
  is_empty r =
      is_nil r.changes
      && (is_nil r.moves
          && (is_nil r.removals && (is_nil r.directories && is_nil r.remove_directories)))

  unfoldable pub accept : Option Bytes → Result CommitError (Unit {0})
  accept none = ok tt
  accept (some text) = err (refused text)

  abbrev pub nothing_yet : Progress
  nothing_yet = record {
    entries = [];
    staged_contents = [];
    previous_contents = [];
    written = [];
    claimed = [];
  }

  -- the loops in their order
  unfoldable pub plan_request : (Request → Option Bytes) → Request → Result CommitError Progress
  unfolding is_empty planned_directories plan_directories plan_changes plan_moves plan_removals
      plan_remove_directories deepest_first accept
  plan_request validate r = do
    guard (not (is_empty r)) no_changes
    planned ← planned_directories root w r.directories
    p ← plan_directories root w r.directories nothing_yet
    q ← plan_changes planned r.changes p
    s ← plan_moves planned r.moves q
    t ← plan_removals r.removals s
    u ← plan_remove_directories (deepest_first r.remove_directories) t
    accept (validate r)
    ok u
