-- ===== src/Storage/Commit/Claims.antt =====
-- internal/storage/transaction.go: the paths that the loops of `Commit` claim.
use ssh_ui.Base.{
  ℕ, ◌+◌, ◌≤◌, ◌≡◌, refl, sym, ap, subst, ◌∙◌, Bool, true, false, not, Option, none, some, List, [],
  ◌∷◌, ◌++◌, map, arith, Bytes, clean, str_eq, str_eq_iff, ltb, if◌then◌else◌, ok, ok_eq,
  bind-eq-ok, guard, Result,
}
use ssh_ui.Config.Graph.{slices_contains}
use ssh_ui.Config.Graph.Once.{Distinct}
use ssh_ui.Storage.World.{outside_workspace, Node, file, directory, symlink, World}
use ssh_ui.Storage.Request.{
  CommitError, FileChange, FileMove, FileRemoval, Request, storage, no_changes, directory_not_empty,
  duplicate_path, move_target_exists,
}
use ssh_ui.Storage.Planning.{
  is_inside, segments_of, write_segments, Progress, claim, stat, resolve_for_write_under,
  directory_segments, resolve_directory, planned_directories, plan_directories,
}
use ssh_ui.Storage.Commit.{
  is_empty, children_of, all_claimed, current_state, contents_in, is_free, count_separators,
  insert_deep, deepest_first, check, plan_changes, source_state, plan_moves, backup_of,
  plan_removals, remove_node, plan_remove_directories, nothing_yet, plan_request,
}

bit : Bool → ℕ
bit true = 1
bit false = 0

-- How often a path stands in a list.
unfoldable pub count : Bytes → List Bytes → ℕ
unfolding bit
count x [] = 0
count x (y ∷ ys) = bit (str_eq y x) + count x ys

count-append : (x : Bytes) (ys zs : List Bytes) → count x (ys ++ zs) ≡ count x ys + count x zs
unfolding count
count-append x [] zs = omega arith
count-append x (y ∷ ys) zs = omega (arith, count-append x ys zs)

abbrev move_paths : List FileMove → List Bytes
move_paths [] = []
move_paths (m ∷ ms) = clean m.from ∷ clean m.to ∷ move_paths ms

-- The paths that a request touches, cleaned: its directories, its changes, both ends of its moves,
-- its removals, and the directories that it removes.
abbrev pub touched : Request → List Bytes
touched r =
    map clean r.directories
    ++ (map (λ (c : FileChange). clean c.path) r.changes
        ++ (move_paths r.moves
            ++ (map (λ (x : FileRemoval). clean x.path) r.removals
                ++ map clean r.remove_directories)))

pub guard-true : {E : Type 0} (b : Bool) (e : E) {u : Unit {0}} → guard b e ≡ ok u → b ≡ true
guard-true true e h = refl
guard-true false e h = absurd (cc)

absent-count : (x : Bytes) (ys : List Bytes) → slices_contains ys x ≡ false → count x ys ≡ 0
unfolding count slices_contains
absent-count x [] h = refl
absent-count x (y ∷ ys) h = ground (arith, str_eq_iff y x, str_eq_iff x y, absent-count x ys)

Distinct-count : (x : Bytes) (ys : List Bytes) → Distinct ys → count x ys ≤ 1
unfolding count Distinct
Distinct-count x [] d = omega arith
Distinct-count x (y ∷ ys) d = go (str_eq y x) refl (Distinct-count x ys d.1)
  where
    go : (b : Bool) → str_eq y x ≡ b → count x ys ≤ 1 → bit b + count x ys ≤ 1
    go true e h =
        let none_left =
          absent-count x ys
            (subst (λ z. slices_contains ys z ≡ false) ((str_eq_iff y x).0 e) d.0) in
        omega (arith, none_left)
    go false e h = omega (arith, h)

-- From one list of claims to a later one: the paths in between are new, and each counts.
abbrev Adds : List Bytes → List Bytes → List Bytes → Type 0
Adds cs paths ds =
    (Distinct cs → Distinct ds) × ((x : Bytes) → count x ds ≡ count x paths + count x cs)

Adds-nothing : (cs : List Bytes) → Adds cs [] cs
unfolding count
Adds-nothing cs = (λ d. d, λ x. omega arith)

Adds-claim :
    (t : Bytes) (p q : Progress) (paths ds : List Bytes)
    → claim t p ≡ ok q
    → Adds q.claimed paths ds
    → Adds p.claimed (t ∷ paths) ds
unfolding claim Distinct count
Adds-claim t p q paths ds h a =
    let (u, g, e) = bind-eq-ok (guard (not (slices_contains p.claimed t)) duplicate_path) _ h in
    let (d, n) = subst (λ (x : Progress). Adds x.claimed paths ds) (sym (ok_eq e)) a in
    (λ c. d (fresh (guard-true _ _ g), c), λ x. omega (arith, n x))
  where
    fresh : not (slices_contains p.claimed t) ≡ true → slices_contains p.claimed t ≡ false
    fresh k = ground arith

Adds-then : (xs ys bs cs ds : List Bytes) → Adds bs xs cs → Adds cs ys ds → Adds bs (xs ++ ys) ds
Adds-then xs ys bs cs ds a b =
    (λ d. b.0 (a.0 d), λ x. omega (arith, a.1 x, b.1 x, count-append x xs ys))

insert_deep-count :
    (x d : Bytes) (ds : List Bytes)
    → count x (map clean (insert_deep d ds)) ≡ bit (str_eq (clean d) x) + count x (map clean ds)
unfolding insert_deep count
insert_deep-count x d [] = refl
insert_deep-count x d (e ∷ es) =
    elim (ltb (count_separators d) (count_separators e))
      as (λ b.
        count x (map clean (if b then e ∷ insert_deep d es else d ∷ e ∷ es))
        ≡ bit (str_eq (clean d) x) + (bit (str_eq (clean e) x) + count x (map clean es))) [
          | true ↦ omega (arith, insert_deep-count x d es)
          | false ↦ refl
        ]

deepest_first-count :
    (x : Bytes) (ds : List Bytes) → count x (map clean (deepest_first ds)) ≡ count x (map clean ds)
unfolding deepest_first count
deepest_first-count x [] = refl
deepest_first-count x (d ∷ ds) =
    insert_deep-count x d (deepest_first ds)
    ∙ ap (λ n. bit (str_eq (clean d) x) + n) (deepest_first-count x ds)

Adds-sorted :
    (ds bs cs : List Bytes) → Adds bs (map clean (deepest_first ds)) cs → Adds bs (map clean ds) cs
Adds-sorted ds bs cs a = (a.0, λ x. omega (arith, a.1 x, deepest_first-count x ds))

module _ (digest : Bytes → Bytes) (root : Bytes) (w : World) where
  pub resolved :
      (planned : List Bytes) (path : Bytes) {t : Bytes}
      → resolve_for_write_under root w planned path ≡ ok t
      → clean path ≡ t
  unfolding resolve_for_write_under
  resolved planned path h =
      let (u, g, k) =
        bind-eq-ok (guard (is_inside root w (clean path)) (storage outside_workspace)) _ h in
      let (v, s, e) =
        bind-eq-ok (write_segments root w planned root (segments_of root w (clean path))) _ k in
      ok_eq e

  resolved_directory :
      (path : Bytes) {t : Bytes} → resolve_directory root w path ≡ ok t → clean path ≡ t
  unfolding resolve_directory
  resolved_directory path h =
      let (u, g, k) =
        bind-eq-ok (guard (is_inside root w (clean path)) (storage outside_workspace)) _ h in
      let (v, s, e) =
        bind-eq-ok (directory_segments root w root (segments_of root w (clean path))) _ k in
      ok_eq e

  -- a path that is claimed once it is resolved
  Adds-path :
      (path t : Bytes) (p q : Progress) (paths ds : List Bytes)
      → clean path ≡ t
      → claim t p ≡ ok q
      → Adds q.claimed paths ds
      → Adds p.claimed (clean path ∷ paths) ds
  Adds-path path t p q paths ds e h a =
      Adds-claim (clean path) p q paths ds (subst (λ x. claim x p ≡ ok q) (sym e) h) a

  ended :
      (p q : Progress)
      → ◌≡◌ {A = Result CommitError Progress} (ok p) (ok q)
      → Adds p.claimed [] q.claimed
  ended p q h =
      subst (λ (x : Progress). Adds p.claimed [] x.claimed) (ok_eq h) (Adds-nothing p.claimed)

  plan_directories-Adds :
      (ds : List Bytes) (p q : Progress)
      → plan_directories root w ds p ≡ ok q
      → Adds p.claimed (map clean ds) q.claimed
  unfolding plan_directories
  plan_directories-Adds [] p q h = ended p q h
  plan_directories-Adds (d ∷ ds) p q h =
      let (target, a, h1) = bind-eq-ok (resolve_directory root w d) _ h in
      let (p1, b, h2) = bind-eq-ok (claim target p) _ h1 in
      let (found, f, h3) = bind-eq-ok (stat w target) _ h2 in
      Adds-path d target p p1 (map clean ds) q.claimed (resolved_directory d a) b
        (plan_directories-Adds ds _ q h3)

  plan_changes-Adds :
      (planned : List Bytes) (cs : List FileChange) (p q : Progress)
      → plan_changes digest root w planned cs p ≡ ok q
      → Adds p.claimed (map (λ (c : FileChange). clean c.path) cs) q.claimed
  unfolding plan_changes
  plan_changes-Adds planned [] p q h = ended p q h
  plan_changes-Adds planned (c ∷ cs) p q h =
      let (target, a, h1) = bind-eq-ok (resolve_for_write_under root w planned c.path) _ h in
      let (p1, b, h2) = bind-eq-ok (claim target p) _ h1 in
      let (state, s, h3) = bind-eq-ok (current_state w target) _ h2 in
      let (u, e, h4) =
        bind-eq-ok (check digest root w target c.precondition (contents_in state) state) _ h3 in
      Adds-path c.path target p p1 (map (λ (x : FileChange). clean x.path) cs) q.claimed
        (resolved planned c.path a) b (plan_changes-Adds planned cs _ q h4)

  plan_moves-Adds :
      (planned : List Bytes) (ms : List FileMove) (p q : Progress)
      → plan_moves digest root w planned ms p ≡ ok q
      → Adds p.claimed (move_paths ms) q.claimed
  unfolding plan_moves
  plan_moves-Adds planned [] p q h = ended p q h
  plan_moves-Adds planned (m ∷ ms) p q h =
      let (source, a, h1) = bind-eq-ok (resolve_for_write_under root w [] m.from) _ h in
      let (target, b, h2) = bind-eq-ok (resolve_for_write_under root w planned m.to) _ h1 in
      let (p1, c, h3) = bind-eq-ok (claim source p) _ h2 in
      let (p2, e, h4) = bind-eq-ok (claim target p1) _ h3 in
      let (found, f, h5) = bind-eq-ok (stat w target) _ h4 in
      let (u, g, h6) = bind-eq-ok (guard (is_free found) move_target_exists) _ h5 in
      let (state, s, h7) = bind-eq-ok (source_state digest root w source m.precondition) _ h6 in
      Adds-path m.from source p p1 (clean m.to ∷ move_paths ms) q.claimed (resolved [] m.from a) c (
        Adds-path m.to target p1 p2 (move_paths ms) q.claimed (resolved planned m.to b) e
          (plan_moves-Adds planned ms _ q h7))

  plan_removals-Adds :
      (xs : List FileRemoval) (p q : Progress)
      → plan_removals digest root w xs p ≡ ok q
      → Adds p.claimed (map (λ (x : FileRemoval). clean x.path) xs) q.claimed
  unfolding plan_removals
  plan_removals-Adds [] p q h = ended p q h
  plan_removals-Adds (x ∷ xs) p q h =
      let (target, a, h1) = bind-eq-ok (resolve_for_write_under root w [] x.path) _ h in
      let (p1, b, h2) = bind-eq-ok (claim target p) _ h1 in
      let (state, s, h3) = bind-eq-ok (source_state digest root w target x.precondition) _ h2 in
      let (previous, g, h4) = bind-eq-ok (backup_of digest root w x.backup target) _ h3 in
      Adds-path x.path target p p1 (map (λ (y : FileRemoval). clean y.path) xs) q.claimed
        (resolved [] x.path a) b (plan_removals-Adds xs _ q h4)

  remove_node-claimed :
      (target : Bytes) (n : Option Node) (p q : Progress)
      → remove_node digest root w target n p ≡ ok q
      → p.claimed ≡ q.claimed
  unfolding remove_node
  remove_node-claimed target none p q h = ap (λ (x : Progress). x.claimed) (ok_eq h)
  remove_node-claimed target (some directory) p q h =
      let (u, g, e) =
        bind-eq-ok (guard (all_claimed p.claimed (children_of target w.disk)) directory_not_empty) _
          h in
      ap (λ (x : Progress). x.claimed) (ok_eq e)
  remove_node-claimed target (some symlink) p q h = absurd (cc)
  remove_node-claimed target (some (file _ _)) p q h = absurd (cc)

  plan_remove_directories-Adds :
      (ds : List Bytes) (p q : Progress)
      → plan_remove_directories digest root w ds p ≡ ok q
      → Adds p.claimed (map clean ds) q.claimed
  unfolding plan_remove_directories
  plan_remove_directories-Adds [] p q h = ended p q h
  plan_remove_directories-Adds (d ∷ ds) p q h =
      let (target, a, h1) = bind-eq-ok (resolve_directory root w d) _ h in
      let (p1, b, h2) = bind-eq-ok (claim target p) _ h1 in
      let (found, f, h3) = bind-eq-ok (stat w target) _ h2 in
      let (p2, g, h4) = bind-eq-ok (remove_node digest root w target found p1) _ h3 in
      Adds-path d target p p1 (map clean ds) q.claimed (resolved_directory d a) b (
        subst (λ cs. Adds cs (map clean ds) q.claimed)
          (sym (remove_node-claimed target found p1 p2 g))
          (plan_remove_directories-Adds ds p2 q h4))

  -- No path is touched twice.
  pub plan_request-count :
      (validate : Request → Option Bytes) (r : Request) (p : Progress)
      → plan_request digest root w validate r ≡ ok p
      → (x : Bytes) → count x (touched r) ≤ 1
  unfolding plan_request Distinct count
  plan_request-count validate r p h x =
      let (u1, g, h1) = bind-eq-ok (guard (not (is_empty digest root w r)) no_changes) _ h in
      let (planned, a, h2) = bind-eq-ok (planned_directories root w r.directories) _ h1 in
      let (p1, b, h3) =
        bind-eq-ok (plan_directories root w r.directories (nothing_yet digest root w)) _ h2 in
      let (p2, c, h4) = bind-eq-ok (plan_changes digest root w planned r.changes p1) _ h3 in
      let (p3, d, h5) = bind-eq-ok (plan_moves digest root w planned r.moves p2) _ h4 in
      let (p4, e, h6) = bind-eq-ok (plan_removals digest root w r.removals p3) _ h5 in
      let (p5, f, h7) =
        bind-eq-ok (plan_remove_directories digest root w (deepest_first r.remove_directories) p4) _
          h6 in
      let removes =
        Adds-sorted r.remove_directories p4.claimed p5.claimed
          (plan_remove_directories-Adds (deepest_first r.remove_directories) p4 p5 f) in
      let all_of : Adds [] (touched r) p5.claimed =
        Adds-then (map clean r.directories) _ [] p1.claimed p5.claimed
          (plan_directories-Adds r.directories (nothing_yet digest root w) p1 b)
          (Adds-then (map (λ (c : FileChange). clean c.path) r.changes) _ p1.claimed p2.claimed
            p5.claimed (plan_changes-Adds planned r.changes p1 p2 c)
            (Adds-then (move_paths r.moves) _ p2.claimed p3.claimed p5.claimed
              (plan_moves-Adds planned r.moves p2 p3 d)
              (Adds-then (map (λ (x : FileRemoval). clean x.path) r.removals) _ p3.claimed
                p4.claimed p5.claimed (plan_removals-Adds r.removals p3 p4 e) removes))) in
      omega (arith, all_of.1 x, Distinct-count x p5.claimed (all_of.0 tt))
