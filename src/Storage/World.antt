-- ===== src/Storage/World.antt =====
-- internal/storage/filesystem.go: the operations on the disk, as `os` performs them.
--
-- A path is its text, absolute and clean. `budget` is the number of further operations that the process lives to
-- perform: at 0 it has been killed, or the disk fails, and nothing changes any more. A recovery
-- runs with a budget of its own on the disk that was left. Flushing a directory spends budget
-- and changes nothing that the model shows.
use ssh_ui.Base.{
  ℕ, zero, suc, Bool, true, false, Option, none, some, List, [], ◌∷◌, Bytes, str_eq, if◌then◌else◌,
  Dict, lookup, insert, remove, split_byte, codes, join,
}
use ssh_ui.Storage.Record.{Record}

pub data Node : Type 0 where
  file : Bytes → ℕ → Node
  directory : Node
  symlink : Node

pub data StorageError : Type 0 where
  io_failure not_exist not_regular not_directory symlink_path outside_workspace : StorageError
  file_too_large irreversible_removal irreversible_change cannot_complete unknown_transaction
        unseal_failed :
      StorageError

-- The journal and the history are the directories of those names: each document by its identifier.
pub record World : Type 0 where
  pub disk : Dict Node
  pub journal : Dict Record
  pub history : Dict Record
  pub budget : ℕ

pub data Reply {ℓ} (A : Type ℓ) : Type ℓ where
  done : A → Reply A
  failed : StorageError → Reply A

-- a call that touches the disk: its reply, and the world that it leaves
abbrev pub Io {ℓ} : Type ℓ → Type ℓ
Io A = World → Reply A × World

module _ {ℓ} {A B : Type ℓ} where
  abbrev pub continue : Reply A → (A → Io B) → Io B
  continue (done a) f w = f a w
  continue (failed e) f w = (failed e, w)

  infixl 5 ◌>>=◌
  unfoldable pub ◌>>=◌ : Io A → (A → Io B) → Io B
  ◌>>=◌ m f w = let (r, w') = m w in continue r f w'

infixl 5 ◌>>◌
abbrev pub ◌>>◌ : {B : Type 0} → Io (Unit {0}) → Io B → Io B
m >> n = m >>= λ _. n

abbrev pub pure {ℓ} : {A : Type ℓ} → A → Io A
pure a w = (done a, w)

abbrev pub fail {ℓ} : {A : Type ℓ} → StorageError → Io A
fail e w = (failed e, w)

-- One operation: it spends budget, and there is none left in a process that was killed.
unfoldable pub spend : ℕ → (World → Reply (Unit {0}) × World) → World → Reply (Unit {0}) × World
spend zero op w = (failed io_failure, w)
spend (suc b) op w = op (record w { budget = b })

unfoldable pub operation : (World → Reply (Unit {0}) × World) → Io (Unit {0})
unfolding spend
operation op w = spend w.budget op w

-- `filepath.Dir` of a clean absolute path: what stands before the last separator
drop_last : List Bytes → List Bytes
drop_last [] = []
drop_last (p ∷ []) = []
drop_last (p ∷ q ∷ ps) = p ∷ drop_last (q ∷ ps)

unfoldable pub dir_of : Bytes → Bytes
unfolding drop_last
dir_of path = join (codes "/") (drop_last (split_byte b'/' path))

has_children : Bytes → Dict Node → Bool
has_children path [] = false
has_children path ((p, n) ∷ d) = elim (str_eq (dir_of p) path) [
  | true ↦ true
  | false ↦ has_children path d
]

-- `len(ReadDir(path)) > 0`
unfoldable pub is_occupied : Bytes → Dict Node → Bool
unfolding has_children
is_occupied path d = has_children path d

unfoldable pub renamed :
    Bytes → Bytes → Option Node → Option Node → World → Reply (Unit {0}) × World
renamed old new none target w = (failed not_exist, w)
renamed old new (some n) (some directory) w = (failed io_failure, w)
renamed old new (some n) target w = (done tt, record w { disk = insert new n (remove old w.disk) })

-- os.Rename of a file: the target is replaced, unless it is a directory. What stands below a directory
-- is not moved with it, and the directory of the target is taken to be there, as the planning has
-- checked; the entries of a journal rename files only.
unfoldable pub rename : Bytes → Bytes → Io (Unit {0})
unfolding renamed operation
rename old new = operation (λ w. renamed old new (lookup old w.disk) (lookup new w.disk) w)

unfoldable pub removed : Bytes → Option Node → World → Reply (Unit {0}) × World
removed path none w = (failed not_exist, w)
removed path (some directory) w =
    if is_occupied path w.disk
    then (failed io_failure, w)
    else (done tt, record w { disk = remove path w.disk })
removed path (some n) w = (done tt, record w { disk = remove path w.disk })

-- os.Remove: a file, or an empty directory
unfoldable pub remove_path : Bytes → Io (Unit {0})
unfolding removed operation is_occupied
remove_path path = operation (λ w. removed path (lookup path w.disk) w)

-- `if err != nil && !errors.Is(err, fs.ErrNotExist) { return err }`
unfoldable pub tolerate : Reply (Unit {0}) → Reply (Unit {0})
tolerate (failed not_exist) = done tt
tolerate r = r

unfoldable pub remove_if_present : Bytes → Io (Unit {0})
unfolding remove_path tolerate
remove_if_present path w = let (r, w') = remove_path path w in (tolerate r, w')

-- SyncDir, which fails here only where the disk does: the directories it is called for are not
-- looked up
unfoldable pub sync_dir : Bytes → Io (Unit {0})
unfolding operation
sync_dir path = operation (λ w. (done tt, w))

unfoldable pub written : Bytes → Node → Option Node → World → Reply (Unit {0}) × World
written path n (some directory) w = (failed io_failure, w)
written path n _ w = (done tt, record w { disk = insert path n w.disk })

-- `writeFile` as one operation: of the staged copy, its rename and the synchronisation only the rename
-- shows, so no staged copy is left when the process is killed in between. A rename onto a directory
-- fails.
unfoldable pub write_file : Bytes → Bytes → ℕ → Io (Unit {0})
unfolding written operation
write_file path contents mode =
    operation (λ w. written path (file contents mode) (lookup path w.disk) w)

unfoldable pub contents_of : Option Node → Reply Bytes
contents_of none = failed not_exist
contents_of (some (file contents mode)) = done contents
contents_of (some symlink) = failed symlink_path
contents_of (some directory) = failed not_regular

-- ReadFile; a process that was killed reads nothing
unfoldable pub read_file : Bytes → Io Bytes
unfolding contents_of
read_file path w = elim w.budget [
  | zero ↦ (failed io_failure, w)
  | suc b ↦ (contents_of (lookup path w.disk), w)
]

-- `writeRecord` in the journal or the history: a document is replaced as a whole
unfoldable pub write_journal : Record → Io (Unit {0})
unfolding operation
write_journal r = operation (λ w. (done tt, record w { journal = insert r.id r w.journal }))

unfoldable pub write_history : Record → Io (Unit {0})
unfolding operation
write_history r = operation (λ w. (done tt, record w { history = insert r.id r w.history }))

unfoldable pub remove_journal : Bytes → Io (Unit {0})
unfolding operation
remove_journal id = operation (λ w. (done tt, record w { journal = remove id w.journal }))

unfoldable pub make_directory : Bytes → Io (Unit {0})
unfolding operation
make_directory path = operation (λ w. (done tt, record w { disk = insert path directory w.disk }))
