-- ===== src/Storage/Recover/Frame.antt =====
-- internal/storage: operations seen from a path that they do not name.
use ssh_ui.Base.{
  ℕ, zero, suc, ◌≡◌, refl, subst, Bool, true, false, Option, none, some, List, [], ◌∷◌, ◌++◌, Bytes,
  str_eq, if◌then◌else◌, Dict, lookup, insert, remove, lookup-insert, lookup-remove, str_eq_iff,
  inl, inr, codes, Bool-cases,
}
use ssh_ui.Storage.World.{
  Node, file, directory, symlink, StorageError, io_failure, outside_workspace, World, Reply, done,
  failed, Io, continue, ◌>>=◌, pure, fail, is_occupied, operation, spend, renamed, rename, removed,
  remove_path, remove_if_present, sync_dir, written, write_file, read_file, contents_of,
  make_directory,
}
use ssh_ui.Storage.Apply.{ensure_directory, ensure_segments, ensure_node, contains}

module _ (p : Bytes) (n : Node) where
  -- The call leaves the node at `p` where it is, whatever it returns.
  pub record Keeps {ℓ} {A : Type ℓ} (m : Io A) : Type ℓ where
    pub at : (w : World) → lookup p w.disk ≡ some n → lookup p (m w).1.disk ≡ some n

  pub Keeps-pure {ℓ} : {A : Type ℓ} (a : A) → Keeps (pure a)
  Keeps-pure a = record { at = λ w h. h }

  pub Keeps-fail {ℓ} : {A : Type ℓ} (e : StorageError) → Keeps (fail {A = A} e)
  Keeps-fail e = record { at = λ w h. h }

  pub Keeps-bind {ℓ} :
      {A B : Type ℓ} (m : Io A) (f : A → Io B) → Keeps m → ((a : A) → Keeps (f a)) → Keeps (m >>= f)
  unfolding ◌>>=◌
  Keeps-bind {A = A} m f km kf = record { at = λ w h. let (r, w') = m w in go r w' (km.at w h) }
    where
      go :
          (r : Reply A) (w : World)
          → lookup p w.disk ≡ some n
          → lookup p (continue r f w).1.disk ≡ some n
      go (done a) w h = (kf a).at w h
      go (failed e) w h = h

  pub Keeps-operation : (op : World → Reply (Unit {0}) × World) → Keeps op → Keeps (operation op)
  unfolding operation spend
  Keeps-operation op k = record { at = λ w h. go w w.budget h }
    where
      go : (w : World) (b : ℕ) → lookup p w.disk ≡ some n → lookup p (spend b op w).1.disk ≡ some n
      go w zero h = h
      go w (suc b) h = k.at (record w { budget = b }) h

  pub Keeps-insert :
      (q : Bytes) (x : Node) (d : Dict Node)
      → str_eq q p ≡ false
      → lookup p d ≡ some n
      → lookup p (insert q x d) ≡ some n
  Keeps-insert q x d e h = rw (lookup-insert, e) h

  pub Keeps-remove :
      (q : Bytes) (d : Dict Node)
      → str_eq q p ≡ false
      → lookup p d ≡ some n
      → lookup p (remove q d) ≡ some n
  Keeps-remove q d e h = rw (lookup-remove, e) h

  pub Keeps-rename :
      (old new : Bytes) → str_eq old p ≡ false → str_eq new p ≡ false → Keeps (rename old new)
  unfolding rename
  Keeps-rename old new e f =
      Keeps-operation _ (record { at = λ w h. go w (lookup old w.disk) (lookup new w.disk) h })
    where
      go :
          (w : World) (o t : Option Node)
          → lookup p w.disk ≡ some n
          → lookup p (renamed old new o t w).1.disk ≡ some n
      go w none t h = h
      go w (some x) (some directory) h = h
      go w (some x) none h = Keeps-insert new x (remove old w.disk) f (Keeps-remove old w.disk e h)
      go w (some x) (some symlink) h =
          Keeps-insert new x (remove old w.disk) f (Keeps-remove old w.disk e h)
      go w (some x) (some (file c m)) h =
          Keeps-insert new x (remove old w.disk) f (Keeps-remove old w.disk e h)

  pub Keeps-remove_path : (q : Bytes) → str_eq q p ≡ false → Keeps (remove_path q)
  unfolding remove_path
  Keeps-remove_path q e = Keeps-operation _ (record { at = λ w h. go w (lookup q w.disk) h })
    where
      directory_case :
          (w : World) (b : Bool)
          → lookup p w.disk ≡ some n
          → lookup p
              (if◌then◌else◌ {A = Reply (Unit {0}) × World} b
                (failed io_failure, w)
                (done tt, record w { disk = remove q w.disk })).1.disk
            ≡ some n
      directory_case w true h = h
      directory_case w false h = Keeps-remove q w.disk e h

      go :
          (w : World) (o : Option Node)
          → lookup p w.disk ≡ some n
          → lookup p (removed q o w).1.disk ≡ some n
      go w none h = h
      go w (some directory) h = directory_case w (is_occupied q w.disk) h
      go w (some symlink) h = Keeps-remove q w.disk e h
      go w (some (file c m)) h = Keeps-remove q w.disk e h

  pub Keeps-remove_if_present : (q : Bytes) → str_eq q p ≡ false → Keeps (remove_if_present q)
  unfolding remove_if_present
  Keeps-remove_if_present q e = record { at = (Keeps-remove_path q e).at }

  pub Keeps-sync_dir : (q : Bytes) → Keeps (sync_dir q)
  unfolding sync_dir
  Keeps-sync_dir q = Keeps-operation _ (record { at = λ w h. h })

  pub Keeps-write_file : (q c : Bytes) (m : ℕ) → str_eq q p ≡ false → Keeps (write_file q c m)
  unfolding write_file
  Keeps-write_file q c m e = Keeps-operation _ (record { at = λ w h. go w (lookup q w.disk) h })
    where
      go :
          (w : World) (o : Option Node)
          → lookup p w.disk ≡ some n
          → lookup p (written q (file c m) o w).1.disk ≡ some n
      go w (some directory) h = h
      go w none h = Keeps-insert q (file c m) w.disk e h
      go w (some symlink) h = Keeps-insert q (file c m) w.disk e h
      go w (some (file _ _)) h = Keeps-insert q (file c m) w.disk e h

  pub Keeps-read_file : (q : Bytes) → Keeps (read_file q)
  unfolding read_file
  Keeps-read_file q = record { at = λ w h. go w w.budget h }
    where
      go :
          (w : World) (b : ℕ)
          → lookup p w.disk ≡ some n
          → lookup p
              (elim b as (λ _. Reply Bytes × World) [
                | zero ↦ (failed io_failure, w)
                | suc b' ↦ (contents_of (lookup q w.disk), w)
              ]).1.disk
            ≡ some n
      go w zero h = h
      go w (suc b) h = h

  pub Keeps-make_directory :
      (q : Bytes) (w : World)
      → lookup q w.disk ≡ none
      → lookup p w.disk ≡ some n
      → lookup p (make_directory q w).1.disk ≡ some n
  unfolding make_directory operation spend
  Keeps-make_directory q w e h = go w.budget
    where
      other : str_eq q p ≡ false
      other = elim (Bool-cases (str_eq q p)) [
        | inl t ↦ absurd (cc (subst (λ x. lookup x w.disk ≡ none) ((str_eq_iff q p).0 t) e))
        | inr t ↦ t
      ]

      go :
          (b : ℕ)
          → lookup p
              (spend b (λ v. (done tt, record v { disk = insert q directory v.disk })) w).1.disk
            ≡ some n
      go zero = h
      go (suc b) = Keeps-insert q directory w.disk other h

  pub Keeps-ensure_node :
      (q : Bytes) (w : World) (o : Option Node)
      → lookup q w.disk ≡ o
      → lookup p w.disk ≡ some n
      → lookup p (ensure_node q o w).1.disk ≡ some n
  unfolding ensure_node
  Keeps-ensure_node q w none e h = Keeps-make_directory q w e h
  Keeps-ensure_node q w (some directory) e h = h
  Keeps-ensure_node q w (some symlink) e h = h
  Keeps-ensure_node q w (some (file c m)) e h = h

  pub Keeps-ensure_segments :
      (current : Bytes) (ss : List Bytes) → Keeps (ensure_segments current ss)
  unfolding ensure_segments
  Keeps-ensure_segments current [] = Keeps-pure tt
  Keeps-ensure_segments current (s ∷ ss) =
      let next = current ++ (codes "/" ++ s) in
      Keeps-bind (λ w. ensure_node next (lookup next w.disk) w) (λ _. ensure_segments next ss)
        (record { at = λ w h. Keeps-ensure_node next w (lookup next w.disk) refl h })
        (λ _. Keeps-ensure_segments next ss)

  pub Keeps-if :
      {A : Type 0} (b : Bool) (m k : Io A) → Keeps m → Keeps k → Keeps (if b then m else k)
  Keeps-if true m k km kk = km
  Keeps-if false m k km kk = kk

  pub Keeps-ensure_directory : (root q : Bytes) → Keeps (ensure_directory root q)
  unfolding ensure_directory
  Keeps-ensure_directory root q =
      Keeps-if (contains root q) _ _ (Keeps-ensure_segments root _) (Keeps-fail outside_workspace)

  -- two calls in a row
  pub Keeps-then : (m k : Io (Unit {0})) → Keeps m → Keeps k → Keeps (m >>= λ _. k)
  Keeps-then m k km kk = Keeps-bind m (λ _. k) km (λ _. kk)
