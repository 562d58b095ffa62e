-- ===== src/Tests/RemoteSync.antt =====
-- internal/remotesync/plan.go, at concrete inputs. The paths of the tests are those of the manifest.
use ssh_ui.Base.{
  IsMap, ◌≡◌, refl, some, List, [], ◌∷◌, Bytes, codes, str_eq, str_leb, ok, Dict, lookup, insert,
  sort_by, insert_by,
}
use ssh_ui.RemoteSync.Plan.{Entry, Planned, absent, holds, digests, base_digests, plan}
use ssh_ui.RemoteSync.Plan.Safe.{IsSafe, plan-IsSafe}

abbrev same : Bytes → Bytes
same b = b

-- "a" is changed there, "b" is deleted there, "c" is new there, "d" is changed on both sides
abbrev before : List Entry
before =
    record { path = codes "a"; sha256 = codes "1" }
    ∷ record { path = codes "b"; sha256 = codes "1" }
    ∷ record { path = codes "d"; sha256 = codes "1" }
    ∷ []

abbrev snapshot : List Entry
snapshot =
    record { path = codes "a"; sha256 = codes "2" }
    ∷ record { path = codes "c"; sha256 = codes "2" }
    ∷ record { path = codes "d"; sha256 = codes "2" }
    ∷ []

abbrev disk : Dict Bytes
disk = (codes "a", codes "1") ∷ (codes "b", codes "1") ∷ (codes "d", codes "3") ∷ []

abbrev contents : Dict Bytes
contents = (codes "a", codes "x") ∷ (codes "c", codes "y") ∷ []

abbrev planned : Planned
planned = record {
  changes =
      record { path = codes "a"; contents = codes "x"; precondition = holds (codes "1") }
      ∷ record { path = codes "c"; contents = codes "y"; precondition = absent }
      ∷ [];
  removals = record { path = codes "b"; precondition = holds (codes "1") } ∷ [];
  conflicts =
      record {
        path = codes "d";
        base_digest = codes "1";
        local_digest = codes "3";
        remote_digest = codes "2";
      }
      ∷ [];
}

plan-runs : plan same (some before) disk snapshot contents ≡ ok planned
unfolding plan str_eq str_leb lookup insert insert_by sort_by
plan-runs = refl

disk-IsMap : IsMap disk
unfolding str_eq
disk-IsMap = ((refl, (refl, tt)), ((refl, tt), (tt, tt)))

plan-IsSafe_example : IsSafe same (base_digests (some before)) (digests snapshot []) disk planned
plan-IsSafe_example =
    plan-IsSafe same (some before) disk snapshot contents planned disk-IsMap plan-runs
