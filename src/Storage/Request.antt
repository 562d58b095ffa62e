-- ===== src/Storage/Request.antt =====
-- internal/storage/transaction.go: a request, and what `Commit` may refuse. The records that a pull
-- fills are those of RemoteSync.Plan with less.
use ssh_ui.Base.{Bool, List, Bytes}
use ssh_ui.Storage.World.{StorageError}

pub record Expectation : Type 0 where
  pub exists : Bool
  pub digest : Bytes

pub record FileChange : Type 0 where
  pub path : Bytes
  pub contents : Bytes
  pub precondition : Expectation
  pub skip_backup : Bool

pub record FileMove : Type 0 where
  pub from : Bytes
  pub to : Bytes
  pub precondition : Expectation

pub record FileRemoval : Type 0 where
  pub path : Bytes
  pub precondition : Expectation
  pub backup : Bool

-- `DirectoryCreate` and `DirectoryRemoval` are their paths
pub record Request : Type 0 where
  pub operation : Bytes
  pub directories : List Bytes
  pub changes : List FileChange
  pub moves : List FileMove
  pub removals : List FileRemoval
  pub remove_directories : List Bytes

-- A conflict has the path, the digest expected, the one found, and the contents found.
pub data CommitError : Type 0 where
  no_changes duplicate_path move_target_exists missing_directory missing_source : CommitError
  directory_not_empty : CommitError
  conflict : Bytes → Bytes → Bytes → Bytes → CommitError
  refused : Bytes → CommitError
  storage : StorageError → CommitError
