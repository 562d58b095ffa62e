-- ===== src/Storage/Commit/Checked.antt =====
-- internal/storage/transaction.go: what a request that `Commit` plans was checked for.
use ssh_ui.Base.{
  if◌then◌else◌, ltb, length, err, ℕ, zero, suc, ◌≤◌, ◌≡◌, ◌≢◌, ◌⊎◌, inl, inr, refl, sym, subst,
  ◌∙◌, Bool, true, false, not, Option, none, some, List, [], ◌∷◌, All, Bytes, clean, str_eq_iff, ok,
  ok_eq, bind-eq-ok, guard, lookup,
}
use ssh_ui.Storage.World.{file_too_large, io_failure, Node, file, directory, symlink, World}
use ssh_ui.Storage.Request.{
  storage, Expectation, FileChange, FileMove, FileRemoval, Request, no_changes, move_target_exists,
}
use ssh_ui.Storage.Planning.{
  masked, Progress, claim, stat, resolve_for_write_under, planned_directories, plan_directories,
}
use ssh_ui.Storage.Commit.{
  is_empty, max_file_size, state_of, current_state, expected, contents_in, is_free, actual, check,
  plan_changes, known, source_state, plan_moves, backup_of, plan_removals, nothing_yet,
  plan_request,
}
use ssh_ui.Storage.Commit.Claims.{count, touched, guard-true, resolved, plan_request-count}

stat-lookup :
    (w : World) (path : Bytes) {n : Option Node} → stat w path ≡ ok n → lookup path w.disk ≡ n
unfolding stat
stat-lookup w path {n} h = go w.budget h
  where
    go :
        (b : ℕ)
        → (elim b [ zero ↦ err (storage io_failure) | suc c ↦ ok (lookup path w.disk) ]) ≡ ok n
        → lookup path w.disk ≡ n
    go zero k = absurd (cc)
    go (suc c) k = ok_eq k

-- what a state that was read says of the disk
abbrev StateIs : World → Bytes → Option (Bytes × ℕ) → Type 0
StateIs w path none = lookup path w.disk ≡ none
StateIs w path (some (contents, mode)) = (m : ℕ) × (lookup path w.disk ≡ some (file contents m))

current_state-StateIs :
    (w : World) (path : Bytes) (state : Option (Bytes × ℕ))
    → current_state w path ≡ ok state
    → StateIs w path state
unfolding current_state state_of
current_state-StateIs w path state h =
    let (found, s, k) = bind-eq-ok (stat w path) _ h in go found (stat-lookup w path s) k
  where
    go :
        (found : Option Node)
        → lookup path w.disk ≡ found
        → state_of found ≡ ok state
        → StateIs w path state
    go none l k = subst (StateIs w path) (ok_eq k) l
    go (some (file contents mode)) l k = sized (ltb max_file_size (length contents)) k
      where
        sized :
            (b : Bool)
            → (if b then err (storage file_too_large) else ok (some (contents, masked mode)))
              ≡ ok state
            → StateIs w path state
        sized true q = absurd (cc)
        sized false q = subst (StateIs w path) (ok_eq q) (mode, l)
    go (some symlink) l k = absurd (cc)
    go (some directory) l k = absurd (cc)

module _ (digest : Bytes → Bytes) (root : Bytes) (w : World) where
  -- a file with the digest is at the path
  abbrev pub IsFile : Bytes → Bytes → Type 0
  IsFile path d =
      (contents : Bytes) × (mode : ℕ) × (lookup path w.disk ≡ some (file contents mode))
      × (digest contents ≡ d)

  -- What a precondition promises of the disk: whether a file is expected, and its digest. Without
  -- a digest, a file that is expected may be absent.
  abbrev pub Holds : Bytes → Bool → Bytes → Type 0
  Holds path true d = IsFile path d ⊎ ((d ≡ []) × (lookup path w.disk ≡ none))
  Holds path false d = lookup path w.disk ≡ none

  abbrev IsHeld : Bytes → Expectation → Type 0
  IsHeld path e = Holds path e.exists e.digest

  -- a file is expected, and is there
  abbrev IsSource : Bytes → Expectation → Type 0
  IsSource path e = (e.exists ≡ true) × IsFile path e.digest

  check-eq :
      (path : Bytes) (e : Expectation) (current : Bytes) (state : Option (Bytes × ℕ)) {u : Unit {0}}
      → check digest root w path e current state ≡ ok u
      → actual digest root w state ≡ expected e
  unfolding check
  check-eq path e current state h = (str_eq_iff _ _).0 (guard-true _ _ h)

  eq-Holds :
      (path : Bytes) (exists : Bool) (d : Bytes) (state : Option (Bytes × ℕ))
      → ((c : Bytes) → digest c ≢ [])
      → StateIs w path state
      → actual digest root w state ≡ expected (record { exists = exists; digest = d })
      → Holds path exists d
  unfolding actual expected
  eq-Holds path true d none hash s e = inr (sym e, s)
  eq-Holds path true d (some (contents, mode)) hash s e = inl (contents, s.0, s.1, e)
  eq-Holds path false d none hash s e = s
  eq-Holds path false d (some (contents, mode)) hash s e = absurd (hash contents e)

  eq-IsSource :
      (path : Bytes) (exists : Bool) (d contents : Bytes) (mode : ℕ)
      → ((c : Bytes) → digest c ≢ [])
      → StateIs w path (some (contents, mode))
      → digest contents ≡ expected (record { exists = exists; digest = d })
      → IsSource path (record { exists = exists; digest = d })
  unfolding expected
  eq-IsSource path true d contents mode hash s e = (refl, (contents, s.0, s.1, e))
  eq-IsSource path false d contents mode hash s e = absurd (hash contents e)

  source_state-IsSource :
      (path : Bytes) (e : Expectation) {s : Bytes × ℕ}
      → ((c : Bytes) → digest c ≢ [])
      → source_state digest root w path e ≡ ok s
      → IsSource path e
  unfolding source_state known actual
  source_state-IsSource path e {s} hash h =
      let (state, r, k) = bind-eq-ok (current_state w path) _ h in
      go state (current_state-StateIs w path state r) k
    where
      go :
          (state : Option (Bytes × ℕ))
          → StateIs w path state
          → known digest root w path e state ≡ ok s
          → IsSource path e
      go none r k = absurd (cc)
      go (some (contents, mode)) r k =
          let (u, c, t) = bind-eq-ok (check digest root w path e [] (some (contents, mode))) _ k in
          eq-IsSource path e.exists e.digest contents mode hash r
            (check-eq path e [] (some (contents, mode)) c)

  abbrev IsChangeHeld : FileChange → Type 0
  IsChangeHeld c = IsHeld (clean c.path) c.precondition

  plan_changes-IsHeld :
      (planned : List Bytes) (cs : List FileChange) (p : Progress) {q : Progress}
      → ((c : Bytes) → digest c ≢ [])
      → plan_changes digest root w planned cs p ≡ ok q
      → All IsChangeHeld cs
  unfolding plan_changes
  plan_changes-IsHeld planned [] p hash h = tt
  plan_changes-IsHeld planned (c ∷ cs) p hash h =
      let (target, a, h1) = bind-eq-ok (resolve_for_write_under root w planned c.path) _ h in
      let (q, b, h2) = bind-eq-ok (claim target p) _ h1 in
      let (state, s, h3) = bind-eq-ok (current_state w target) _ h2 in
      let (u, e, h4) =
        bind-eq-ok (check digest root w target c.precondition (contents_in state) state) _ h3 in
      let here : IsHeld target c.precondition =
        eq-Holds target c.precondition.exists c.precondition.digest state hash
          (current_state-StateIs w target state s) (check-eq target c.precondition _ state e) in
      (
        subst (λ t. IsHeld t c.precondition) (sym (resolved digest root w planned c.path a)) here,
        plan_changes-IsHeld planned cs _ hash h4,
      )

  -- the source is the file expected, and nothing is at the target
  abbrev IsMoveHeld : FileMove → Type 0
  IsMoveHeld m = IsSource (clean m.from) m.precondition × (lookup (clean m.to) w.disk ≡ none)

  free-none : (n : Option Node) → is_free n ≡ true → n ≡ none
  unfolding is_free
  free-none none h = refl
  free-none (some n) h = absurd (cc)

  plan_moves-IsHeld :
      (planned : List Bytes) (ms : List FileMove) (p : Progress) {q : Progress}
      → ((c : Bytes) → digest c ≢ [])
      → plan_moves digest root w planned ms p ≡ ok q
      → All IsMoveHeld ms
  unfolding plan_moves
  plan_moves-IsHeld planned [] p hash h = tt
  plan_moves-IsHeld planned (m ∷ ms) p hash h =
      let (source, a, h1) = bind-eq-ok (resolve_for_write_under root w [] m.from) _ h in
      let (target, b, h2) = bind-eq-ok (resolve_for_write_under root w planned m.to) _ h1 in
      let (q, c, h3) = bind-eq-ok (claim source p) _ h2 in
      let (r, e, h4) = bind-eq-ok (claim target q) _ h3 in
      let (found, f, h5) = bind-eq-ok (stat w target) _ h4 in
      let (u, g, h6) = bind-eq-ok (guard (is_free found) move_target_exists) _ h5 in
      let (state, s, h7) = bind-eq-ok (source_state digest root w source m.precondition) _ h6 in
      let from_held : IsSource source m.precondition =
        source_state-IsSource source m.precondition hash s in
      let to_free : lookup target w.disk ≡ none =
        stat-lookup w target f ∙ free-none found (guard-true _ _ g) in
      (
        (
          subst (λ t. IsSource t m.precondition) (sym (resolved digest root w [] m.from a))
              from_held,
          subst (λ t. lookup t w.disk ≡ none) (sym (resolved digest root w planned m.to b)) to_free,
        ),
        plan_moves-IsHeld planned ms _ hash h7,
      )

  abbrev IsRemovalHeld : FileRemoval → Type 0
  IsRemovalHeld x = IsSource (clean x.path) x.precondition

  plan_removals-IsHeld :
      (xs : List FileRemoval) (p : Progress) {q : Progress}
      → ((c : Bytes) → digest c ≢ [])
      → plan_removals digest root w xs p ≡ ok q
      → All IsRemovalHeld xs
  unfolding plan_removals
  plan_removals-IsHeld [] p hash h = tt
  plan_removals-IsHeld (x ∷ xs) p hash h =
      let (target, a, h1) = bind-eq-ok (resolve_for_write_under root w [] x.path) _ h in
      let (q, b, h2) = bind-eq-ok (claim target p) _ h1 in
      let (state, s, h3) = bind-eq-ok (source_state digest root w target x.precondition) _ h2 in
      let (previous, g, h4) = bind-eq-ok (backup_of digest root w x.backup target) _ h3 in
      let here : IsSource target x.precondition =
        source_state-IsSource target x.precondition hash s in
      (
        subst (λ t. IsSource t x.precondition) (sym (resolved digest root w [] x.path a)) here,
        plan_removals-IsHeld xs _ hash h4,
      )

  -- What a request was checked for.
  pub record IsChecked (r : Request) : Type 0 where
    pub changes : All IsChangeHeld r.changes
    pub moves : All IsMoveHeld r.moves
    pub removals : All IsRemovalHeld r.removals
    pub once : (path : Bytes) → count path (touched r) ≤ 1

  -- A request is planned only when each of its preconditions holds of the disk: where a change
  -- expects a file, a file with that digest is there, or none when the digest expected is empty;
  -- where it expects none, nothing is there. The source of a move and the file of a removal are
  -- there with the digest expected, and nothing is at the target of a move. No path is touched
  -- twice by its directories, changes, moves, removals and removed directories. A digest is
  -- taken to be never empty.
  pub plan_request-IsChecked :
      (validate : Request → Option Bytes) (r : Request) (p : Progress)
      → ((c : Bytes) → digest c ≢ [])
      → plan_request digest root w validate r ≡ ok p
      → IsChecked r
  unfolding plan_request
  plan_request-IsChecked validate r p hash h =
      let (u1, g, h1) = bind-eq-ok (guard (not (is_empty digest root w r)) no_changes) _ h in
      let (planned, a, h2) = bind-eq-ok (planned_directories root w r.directories) _ h1 in
      let (p1, b, h3) =
        bind-eq-ok (plan_directories root w r.directories (nothing_yet digest root w)) _ h2 in
      let (p2, c, h4) = bind-eq-ok (plan_changes digest root w planned r.changes p1) _ h3 in
      let (p3, d, h5) = bind-eq-ok (plan_moves digest root w planned r.moves p2) _ h4 in
      let (p4, e, h6) = bind-eq-ok (plan_removals digest root w r.removals p3) _ h5 in
      record {
        changes = plan_changes-IsHeld planned r.changes p1 hash c;
        moves = plan_moves-IsHeld planned r.moves p2 hash d;
        removals = plan_removals-IsHeld r.removals p3 hash e;
        once = plan_request-count digest root w validate r p h;
      }
