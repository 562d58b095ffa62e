-- ===== src/Tests/Storage.antt =====
-- internal/storage, at concrete inputs. The hash and the opening of the tests leave a text as it is.
use ssh_ui.Base.{◌≡◌, refl, true, false, Option, some, [], ◌∷◌, Bytes, codes, lookup, str_eq}
use ssh_ui.Storage.Record.{write, staged, Entry, Record}
use ssh_ui.Storage.World.{file, World}
use ssh_ui.Storage.Apply.{commit_staged, drop_entries}
use ssh_ui.Storage.Recover.{rollback}
use ssh_ui.Storage.Recover.Untouched.{lookup-rollback}
use ssh_ui.Storage.Recover.Crash.{alive, rollback-killed_write}

abbrev same : Bytes → Bytes
same b = b

abbrev unsealed : Bytes → Option Bytes
unsealed b = some b

abbrev writes : Bytes → Bytes → Bytes → Entry
writes path temp backup = record {
  action = write;
  path = path;
  target = [];
  temp = temp;
  backup = backup;
  no_backup = false;
  had_previous = true;
  mode = 384;
  digest = codes "new";
  previous_digest = codes "old";
}

-- the first replacement is recorded as made, the second is staged
abbrev pending : Record
pending = record {
  id = codes "t1";
  operation = codes "edit";
  status = staged;
  committed = 1;
  entries =
      writes (codes "/w/a") [] (codes "/w/h/a")
      ∷ writes (codes "/w/b") (codes "/w/t") (codes "/w/h/b")
      ∷ [];
}

abbrev interrupted : World
interrupted = record {
  disk =
      (codes "/w/a", file (codes "new") 384)
      ∷ (codes "/w/b", file (codes "old") 384)
      ∷ (codes "/w/t", file (codes "new") 384)
      ∷ (codes "/w/h/a", file (codes "old") 384)
      ∷ [];
  journal = (codes "t1", pending) ∷ [];
  history = [];
  budget = 50;
}

lookup-rollback_example :
    lookup (codes "/w/b") (rollback (codes "/w") same unsealed (codes "t1") interrupted).1.disk
    ≡ some (file (codes "old") 384)
unfolding lookup str_eq
lookup-rollback_example =
    lookup-rollback (codes "/w") same unsealed (codes "/w/b") (file (codes "old") 384) (codes "t1")
      pending interrupted refl (record { path = refl; target = refl }, tt) (refl, (refl, tt)) refl

rollback-killed_write_example :
    lookup
      (codes "/w/b")
      (rollback
        (codes "/w")
        same
        unsealed
        (codes "t1")
        (alive 50 (commit_staged (codes "/w") pending (alive 1 interrupted)).1)).1.disk
    ≡ some (file (codes "new") 384)
unfolding lookup str_eq drop_entries
rollback-killed_write_example =
    rollback-killed_write (codes "/w") same unsealed (codes "t1")
      (writes (codes "/w/b") (codes "/w/t") (codes "/w/h/b")) (file (codes "new") 384) [] pending
      interrupted 50 refl refl refl refl (λ e. cc) (record { path = refl; target = refl }, tt)
      (refl, (refl, tt))
