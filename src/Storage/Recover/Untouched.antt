-- ===== src/Storage/Recover/Untouched.antt =====
-- internal/storage/journal.go: a rollback seen from a path that it does not name.
use ssh_ui.Base.{
  ℕ, zero, suc, ◌≡◌, sym, subst, Bool, true, false, ◌||◌, Option, none, some, List, [], ◌∷◌, Bytes,
  str_eq, if◌then◌else◌, lookup, All, get_elem?, contains_byte,
}
use ssh_ui.Storage.Record.{
  Action, write, move, make_dir, remove_dir, note, Entry, Record, rolled_back, Status,
}
use ssh_ui.Storage.World.{
  Node, file, directory, symlink, StorageError, unknown_transaction, not_directory, World, continue,
  ◌>>=◌, fail, dir_of, is_occupied, read_file, write_history, remove_journal,
}
use ssh_ui.Storage.Apply.{finish}
use ssh_ui.Storage.Recover.{
  load_pending, found_pending, has_bad_byte, first_irreversible, read_backup, opened,
  undo_directory, restore, undo_action, undo_found, undo_entries, remove_temps, rollback_unless,
  rollback,
}
use ssh_ui.Storage.Recover.Frame.{
  Keeps, Keeps-pure, Keeps-fail, Keeps-bind, Keeps-operation, Keeps-rename, Keeps-remove_if_present,
  Keeps-sync_dir, Keeps-write_file, Keeps-read_file, Keeps-ensure_directory, Keeps-then, Keeps-if,
}

-- the entry names other paths than `p`
pub record Spares (p : Bytes) (e : Entry) : Type 0 where
  pub path : str_eq e.path p ≡ false
  pub target : str_eq e.target p ≡ false

-- the first `k` entries name other paths
abbrev pub SparesFirst : Bytes → ℕ → List Entry → Type 0
SparesFirst p zero es = Unit
SparesFirst p (suc k) [] = Unit
SparesFirst p (suc k) (e ∷ es) = Spares p e × SparesFirst p k es

module _ (root : Bytes) (hash : Bytes → Bytes) (unseal : Bytes → Option Bytes) (p : Bytes)
    (n : Node) where
  Keeps-read_backup : (q : Bytes) → Keeps p n (read_backup root hash unseal q)
  unfolding read_backup opened
  Keeps-read_backup q =
      Keeps-bind p n (read_file q) _ (Keeps-read_file p n q)
        (λ sealed. record { at = λ w h. go (unseal sealed) w h })
    where
      go :
          (o : Option Bytes) (w : World)
          → lookup p w.disk ≡ some n
          → lookup p (opened root hash unseal o w).1.disk ≡ some n
      go none w h = h
      go (some c) w h = h

  Keeps-restore : (e : Entry) → Spares p e → Keeps p n (restore root hash unseal e)
  unfolding restore
  Keeps-restore e s =
      Keeps-if p n e.had_previous _ _
        (Keeps-bind p n (read_backup root hash unseal e.backup) _ (Keeps-read_backup e.backup)
          (λ c. Keeps-write_file p n e.path c e.mode s.path))
        (Keeps-then p n _ _ (Keeps-remove_if_present p n e.path s.path)
          (Keeps-sync_dir p n (dir_of e.path)))

  Keeps-undo_directory :
      (q : Bytes) (o : Option Node) (b : Bool)
      → str_eq q p ≡ false
      → Keeps p n (undo_directory root hash unseal q o b)
  unfolding undo_directory
  Keeps-undo_directory q none b s = Keeps-pure p n tt
  Keeps-undo_directory q (some directory) true s = Keeps-pure p n tt
  Keeps-undo_directory q (some directory) false s =
      Keeps-then p n _ _ (Keeps-remove_if_present p n q s) (Keeps-sync_dir p n (dir_of q))
  Keeps-undo_directory q (some symlink) b s = Keeps-fail p n not_directory
  Keeps-undo_directory q (some (file c m)) b s = Keeps-fail p n not_directory

  Keeps-undo_action :
      (a : Action) (e : Entry) → Spares p e → Keeps p n (undo_action root hash unseal a e)
  unfolding undo_action
  Keeps-undo_action move e s =
      Keeps-then p n _ _ (Keeps-rename p n e.target e.path s.target s.path) (
        Keeps-then p n _ _ (Keeps-sync_dir p n (dir_of e.target))
          (Keeps-sync_dir p n (dir_of e.path)))
  Keeps-undo_action make_dir e s = record {
    at = λ w h.
        (Keeps-if p n e.had_previous _ _ (Keeps-pure p n tt) (
            Keeps-undo_directory e.path (lookup e.path w.disk) (is_occupied e.path w.disk)
              s.path)).at
          w h;
  }
  Keeps-undo_action remove_dir e s =
      Keeps-then p n _ _ (Keeps-ensure_directory p n root e.path)
        (Keeps-sync_dir p n (dir_of e.path))
  Keeps-undo_action write e s = Keeps-restore e s
  Keeps-undo_action Action.remove e s = Keeps-restore e s
  Keeps-undo_action note e s = Keeps-restore e s

  SparesAt : Option Entry → Type 0
  SparesAt none = Unit
  SparesAt (some e) = Spares p e

  Keeps-undo_found : (o : Option Entry) → SparesAt o → Keeps p n (undo_found root hash unseal o)
  unfolding undo_found SparesAt
  Keeps-undo_found none s = Keeps-pure p n tt
  Keeps-undo_found (some e) s = Keeps-undo_action e.action e s

  spares_at : (k i : ℕ) (es : List Entry) → SparesFirst p (suc k) es → SparesAt (get_elem? es k)
  unfolding SparesAt
  spares_at zero i [] s = tt
  spares_at zero i (e ∷ es) s = s.0
  spares_at (suc k) i [] s = tt
  spares_at (suc k) i (e ∷ es) s = spares_at k i es s.1

  spares_less : (k : ℕ) (es : List Entry) → SparesFirst p (suc k) es → SparesFirst p k es
  spares_less zero es s = tt
  spares_less (suc k) [] s = tt
  spares_less (suc k) (e ∷ es) s = (s.0, spares_less k es s.1)

  Keeps-undo_entries :
      (k : ℕ) (es : List Entry)
      → SparesFirst p k es
      → Keeps p n (undo_entries root hash unseal k es)
  unfolding undo_entries
  Keeps-undo_entries zero es s = Keeps-pure p n tt
  Keeps-undo_entries (suc k) es s =
      Keeps-then p n _ _ (Keeps-undo_found (get_elem? es k) (spares_at k k es s))
        (Keeps-undo_entries k es (spares_less k es s))

  Keeps-remove_temps :
      (es : List Entry)
      → All (λ (e : Entry). str_eq e.temp p ≡ false) es
      → Keeps p n (remove_temps root hash unseal es)
  unfolding remove_temps
  Keeps-remove_temps [] s = Keeps-pure p n tt
  Keeps-remove_temps (e ∷ es) s =
      Keeps-then p n _ _
        (Keeps-if p n (str_eq e.temp []) _ _ (Keeps-pure p n tt)
          (Keeps-remove_if_present p n e.temp s.0))
        (Keeps-remove_temps es s.1)

  Keeps-finish : (r : Record) (st : Status) → Keeps p n (finish root r st)
  unfolding finish write_history remove_journal
  Keeps-finish r st = Keeps-then p n _ _ (Keeps-operation p n _ (record { at = λ w h. h })) (
      Keeps-then p n _ _ (Keeps-operation p n _ (record { at = λ w h. h }))
        (Keeps-sync_dir p n root))

  Keeps-rollback_unless :
      (o : Option StorageError) (r : Record)
      → SparesFirst p r.committed r.entries
      → All (λ (e : Entry). str_eq e.temp p ≡ false) r.entries
      → Keeps p n (rollback_unless root hash unseal o r)
  unfolding rollback_unless
  Keeps-rollback_unless (some why) r s t = Keeps-fail p n why
  Keeps-rollback_unless none r s t =
      Keeps-then p n _ _ (Keeps-undo_entries r.committed r.entries s) (
        Keeps-then p n _ _ (Keeps-remove_temps r.entries t)
          (Keeps-finish (record r { committed = 0 }) rolled_back))

  -- Whatever comes of a rollback, a node stays as it is at every path that no committed entry
  -- names and no entry stages.
  pub lookup-rollback :
      (id : Bytes) (r : Record) (w : World)
      → lookup id w.journal ≡ some r
      → SparesFirst p r.committed r.entries
      → All (λ (e : Entry). str_eq e.temp p ≡ false) r.entries
      → lookup p w.disk ≡ some n
      → lookup p (rollback root hash unseal id w).1.disk ≡ some n
  unfolding rollback load_pending found_pending ◌>>=◌
  lookup-rollback id r w j s t h = go (str_eq id [] || contains_byte b'/' id || has_bad_byte id)
    where
      go :
          (b : Bool)
          → lookup p
              (((if b then fail unknown_transaction else λ v. found_pending (lookup id v.journal) v)
                  >>= λ x.
                      rollback_unless root hash unseal (first_irreversible x.committed x.entries) x)
                w).1.disk
            ≡ some n
      go true = h
      go false =
          subst
            (λ o.
              lookup p
                (continue (found_pending o w).0
                  (λ x.
                    rollback_unless root hash unseal (first_irreversible x.committed x.entries) x)
                  (found_pending o w).1).1.disk
              ≡ some n)
            (sym j)
            ((Keeps-rollback_unless (first_irreversible r.committed r.entries) r s t).at w h)
