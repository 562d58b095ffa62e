-- ===== src/Tests/Commit.antt =====
-- internal/storage/transaction.go, the planning at a concrete request: a digest is the text behind a mark.
use ssh_ui.Storage.Apply.{contains}
use ssh_ui.Base.{
  ◌≡◌, ◌≢◌, refl, true, false, Option, none, [], ◌∷◌, Bytes, codes, Result, ok, err, has_prefix,
  join, lookup, str_eq,
}
use ssh_ui.Storage.World.{World, file, directory}
use ssh_ui.Storage.Request.{Request, CommitError}
use ssh_ui.Storage.Planning.{Progress, is_last}
use ssh_ui.Storage.Commit.{plan_request, nothing_yet}
use ssh_ui.Storage.Commit.Checked.{IsChecked, plan_request-IsChecked}

-- the digest of these tests: never empty, as those of the program
abbrev marked : Bytes → Bytes
marked b = b'#' ∷ b

abbrev world : World
world = record {
  disk =
      (codes "/s/a", file (codes "x") 384)
      ∷ (codes "/s/d", directory)
      ∷ (codes "/s/d/b", file (codes "y") 384)
      ∷ [];
  journal = [];
  history = [];
  budget = 9;
}

-- a file is changed, one is made in a new directory, and one goes with its directory
abbrev request : Request
request = record {
  operation = codes "test";
  directories = codes "/s/n" ∷ [];
  changes =
      record {
        path = codes "/s/./a";
        contents = codes "z";
        precondition = record { exists = true; digest = codes "#x" };
        skip_backup = false;
      }
      ∷ record {
        path = codes "/s/n/c";
        contents = codes "w";
        precondition = record { exists = false; digest = [] };
        skip_backup = false;
      }
      ∷ [];
  moves = [];
  removals =
      record {
        path = codes "/s/d/b";
        precondition = record { exists = true; digest = codes "#y" };
        backup = true;
      }
      ∷ [];
  remove_directories = codes "/s/d" ∷ [];
}

abbrev accepted : Request → Option Bytes
accepted r = none

abbrev progress_of : Result CommitError Progress → Progress
progress_of (ok p) = p
progress_of (err e) = nothing_yet marked (codes "/s") world

abbrev progress : Progress
progress = progress_of (plan_request marked (codes "/s") world accepted request)

planned_request : plan_request marked (codes "/s") world accepted request ≡ ok progress
unfolding plan_request has_prefix contains str_eq join lookup is_last
planned_request = refl

marked-ne-nil : (c : Bytes) → marked c ≢ []
marked-ne-nil c e = absurd (cc)

plan_request-IsChecked_example : IsChecked marked (codes "/s") world request
plan_request-IsChecked_example =
    plan_request-IsChecked marked (codes "/s") world accepted request progress marked-ne-nil
      planned_request
