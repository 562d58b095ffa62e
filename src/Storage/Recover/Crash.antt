-- ===== src/Storage/Recover/Crash.antt =====
-- A process that is killed between the rename of an entry and the record of it in the journal.
use ssh_ui.Base.{
  ℕ, suc, ◌≡◌, ◌≢◌, refl, sym, ap, subst, ◌∙◌, false, Option, none, some, List, ◌∷◌, Bytes, str_eq,
  str_eq_refl, lookup, insert, remove, lookup-insert, All,
}
use ssh_ui.Storage.Record.{write, Entry, Record}
use ssh_ui.Storage.World.{
  Node, file, directory, symlink, io_failure, World, Reply, done, failed, ◌>>=◌, operation, spend,
  renamed, rename, sync_dir,
}
use ssh_ui.Storage.Apply.{commit_action, commit_entries, drop_entries, commit_staged}
use ssh_ui.Storage.Recover.{rollback}
use ssh_ui.Storage.Recover.Untouched.{SparesFirst, lookup-rollback}

-- the same disk, under a process that lives for so many operations
abbrev pub alive : ℕ → World → World
alive b w = record w { budget = b }

renamed_file :
    (old new : Bytes) (n : Node) (t : Option Node) (w : World)
    → t ≢ some directory
    → renamed old new (some n) t w ≡ (done tt, record w { disk = insert new n (remove old w.disk) })
unfolding renamed
renamed_file old new n none w h = refl
renamed_file old new n (some directory) w h = absurd (h refl)
renamed_file old new n (some symlink) w h = refl
renamed_file old new n (some (file c m)) w h = refl

rename-alive :
    (old new : Bytes) (n : Node) (b : ℕ) (w : World)
    → lookup old w.disk ≡ some n
    → lookup new w.disk ≢ some directory
    → rename old new (alive (suc b) w)
      ≡ (done tt, record w { disk = insert new n (remove old w.disk); budget = b })
unfolding rename operation spend
rename-alive old new n b w e h =
    subst
      (λ o.
        renamed old new o (lookup new w.disk) (alive b w)
        ≡ (done tt, record w { disk = insert new n (remove old w.disk); budget = b }))
      (sym e) (renamed_file old new n (lookup new w.disk) (alive b w) h)

module _ (root : Bytes) (hash : Bytes → Bytes) (unseal : Bytes → Option Bytes) where
  killed_write :
      (e : Entry) (n : Node) (rest : List Entry) (r : Record) (w : World)
      → e.action ≡ write
      → lookup e.temp w.disk ≡ some n
      → lookup e.path w.disk ≢ some directory
      → commit_entries root (e ∷ rest) r (alive 1 w) ≡ (
        failed io_failure,
        record w { disk = insert e.path n (remove e.temp w.disk); budget = 0 },
      )
  unfolding commit_entries commit_action ◌>>=◌ sync_dir operation spend
  killed_write e n rest r w a t d = rw (a, rename-alive e.temp e.path n 0 w t d)

  -- A replacement whose rename was made when the process was killed, and was not recorded, is
  -- not undone: the rollback of the transaction leaves the new contents in place.
  pub rollback-killed_write :
      (id : Bytes) (e : Entry) (n : Node) (rest : List Entry) (r : Record) (w : World) (later : ℕ)
      → lookup id w.journal ≡ some r
      → drop_entries r.committed r.entries ≡ e ∷ rest
      → e.action ≡ write
      → lookup e.temp w.disk ≡ some n
      → lookup e.path w.disk ≢ some directory
      → SparesFirst e.path r.committed r.entries
      → All (λ (x : Entry). str_eq x.temp e.path ≡ false) r.entries
      → lookup e.path
          (rollback root hash unseal id (alive later (commit_staged root r (alive 1 w)).1)).1.disk
        ≡ some n
  unfolding commit_staged
  rollback-killed_write id e n rest r w later j s a t d f g =
      let w' = record w { disk = insert e.path n (remove e.temp w.disk); budget = later } in
      let killed =
        ap (λ (x : Reply Record × World). alive later x.1)
          (ap (λ (es : List Entry). commit_entries root es r (alive 1 w)) s
            ∙ killed_write e n rest r w a t d) in
      subst (λ x. lookup e.path (rollback root hash unseal id x).1.disk ≡ some n) (sym killed)
        (lookup-rollback root hash unseal e.path n id r w' j f g
          (lookup-insert e.path e.path n (remove e.temp w.disk) ∙ rw str_eq_refl))
