-- ===== src/RemoteSync/Plan.antt =====
-- internal/remotesync/plan.go. The path on the disk of a path of the manifest, which
-- `filepath` makes, is a parameter.
pub mod Safe
use ssh_ui.Base.{
  Bool, true, false, Option, none, some, List, [], ◌∷◌, ◌++◌, Bytes, str_eq, if◌then◌else◌, Result,
  ok, err, Dict, lookup, insert, sort_by,
}

-- Of a file of the manifest the plan reads these.
pub record Entry : Type 0 where
  pub path : Bytes
  pub sha256 : Bytes

-- The records of a storage request, with the fields that the plan sets.
pub record Precondition : Type 0 where
  pub exists : Bool
  pub digest : Bytes

pub record Change : Type 0 where
  pub path : Bytes
  pub contents : Bytes
  pub precondition : Precondition

pub record Removal : Type 0 where
  pub path : Bytes
  pub precondition : Precondition

-- An empty text is a digest that the side does not have.
pub record Conflict : Type 0 where
  pub path : Bytes
  pub base_digest : Bytes
  pub local_digest : Bytes
  pub remote_digest : Bytes

pub data PlanError : Type 0 where
  nothing_to_apply : PlanError

pub record Planned : Type 0 where
  pub changes : List Change
  pub removals : List Removal
  pub conflicts : List Conflict

abbrev pub nothing : Planned
nothing = record { changes = []; removals = []; conflicts = [] }

abbrev pub absent : Precondition
absent = record { exists = false; digest = [] }

abbrev pub holds : Bytes → Precondition
holds digest = record { exists = true; digest = digest }

-- the loops that fill the maps of digests
unfoldable pub digests : List Entry → Dict Bytes → Dict Bytes
digests [] d = d
digests (item ∷ items) d = digests items (insert item.path item.sha256 d)

unfoldable pub base_digests : Option (List Entry) → Dict Bytes
unfolding digests
base_digests none = []
base_digests (some items) = digests items []

-- `contents[path]`, which is nil for a path without contents
unfoldable pub contents_at : Option Bytes → Bytes
contents_at none = []
contents_at (some contents) = contents

module _ (place : Bytes → Bytes) (base : Dict Bytes) where
  -- one round of the loop over the files of the snapshot: a conflict, or a change
  unfoldable pub take_remote : Dict Bytes → Entry → Option Bytes → Option Bytes → Planned → Planned
  unfolding contents_at
  take_remote contents item none had rest = record rest {
    changes =
        record {
          path = place item.path;
          contents = contents_at (lookup item.path contents);
          precondition = absent;
        }
        ∷ rest.changes;
  }
  take_remote contents item (some here) none rest =
      if str_eq here item.sha256 then rest else record rest {
        conflicts =
            record {
              path = item.path;
              base_digest = [];
              local_digest = here;
              remote_digest = item.sha256;
            }
            ∷ rest.conflicts;
      }
  take_remote contents item (some here) (some had) rest =
      if str_eq here item.sha256
      then rest
      else if str_eq here had
      then record rest {
        changes =
            record {
              path = place item.path;
              contents = contents_at (lookup item.path contents);
              precondition = holds here;
            }
            ∷ rest.changes;
      }
      else record rest {
        conflicts =
            record {
              path = item.path;
              base_digest = had;
              local_digest = here;
              remote_digest = item.sha256;
            }
            ∷ rest.conflicts;
      }

  unfoldable pub plan_remote : Dict Bytes → Dict Bytes → List Entry → Planned → Planned
  unfolding take_remote
  plan_remote contents here [] rest = rest
  plan_remote contents here (item ∷ items) rest =
      take_remote contents item (lookup item.path here) (lookup item.path base)
        (plan_remote contents here items rest)

  -- one round of the loop over the files of this disk: a conflict, or a removal
  unfoldable pub take_local : Bytes → Bytes → Option Bytes → Option Bytes → Planned → Planned
  take_local path here (some still) had rest = rest
  take_local path here none none rest = rest
  take_local path here none (some had) rest =
      if str_eq here had
      then record rest {
        removals = record { path = place path; precondition = holds here } ∷ rest.removals;
      }
      else record rest {
        conflicts =
            record { path = path; base_digest = had; local_digest = here; remote_digest = [] }
            ∷ rest.conflicts;
      }

  unfoldable pub plan_local : Dict Bytes → Dict Bytes → Planned → Planned
  unfolding take_local
  plan_local remote [] rest = rest
  plan_local remote ((path, here) ∷ files) rest =
      take_local path here (lookup path remote) (lookup path base) (plan_local remote files rest)

unfoldable pub sorted : Planned → Planned
sorted p = record {
  changes = sort_by (λ (c : Change). c.path) p.changes;
  removals = sort_by (λ (r : Removal). r.path) p.removals;
  conflicts = sort_by (λ (c : Conflict). c.path) p.conflicts;
}

unfoldable pub is_nothing : List Conflict → List Change → List Removal → Bool
is_nothing [] [] [] = true
is_nothing conflicts changes removals = false

unfoldable pub unless_nothing : Planned → Result PlanError Planned
unfolding is_nothing
unless_nothing p =
    if is_nothing p.conflicts p.changes p.removals then err nothing_to_apply else ok p

-- The request and the conflicts. The lists are gathered back to front and then sorted.
unfoldable pub plan :
    (Bytes → Bytes)
    → Option (List Entry)
    → Dict Bytes
    → List Entry
    → Dict Bytes
    → Result PlanError Planned
unfolding base_digests digests plan_remote plan_local sorted unless_nothing
plan place base here remote contents =
    let known = base_digests base in
    unless_nothing (
      sorted (
        plan_local place known (digests remote []) here
          (plan_remote place known contents here remote nothing)))
