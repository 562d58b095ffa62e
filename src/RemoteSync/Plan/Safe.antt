-- ===== src/RemoteSync/Plan/Safe.antt =====
-- internal/remotesync/plan.go: what a pull may touch.
use ssh_ui.Base.{
  Bool, true, false, Option, none, some, List, [], ◌∷◌, ◌≡◌, refl, sym, ap, subst, ◌∙◌, ◌⊎◌, inl,
  inr, Bytes, str_eq, str_eq_iff, if◌then◌else◌, ok, err, ok_eq, Dict, lookup, All, insert_by,
  sort_by, str_leb, Absent, IsMap, arith,
}
use ssh_ui.RemoteSync.Plan.{
  Entry, Change, Removal, Planned, nothing, absent, holds, digests, base_digests, take_remote,
  plan_remote, take_local, plan_local, sorted, is_nothing, unless_nothing, plan, contents_at,
  nothing_to_apply,
}

module _ {A : Type 0} (P : A → Type 0) (key : A → Bytes) where
  insert_by-All : (x : A) (xs : List A) → P x → All P xs → All P (insert_by key x xs)
  unfolding insert_by
  insert_by-All x [] p h = (p, tt)
  insert_by-All x (y ∷ ys) p h =
      elim (str_leb (key x) (key y))
        as (λ b. All P (if b then x ∷ y ∷ ys else y ∷ insert_by key x ys)) [
          | true ↦ (p, h)
          | false ↦ (h.0, insert_by-All x ys p h.1)
        ]

  sort_by-All : (xs : List A) → All P xs → All P (sort_by key xs)
  unfolding sort_by
  sort_by-All [] h = tt
  sort_by-All (x ∷ xs) h = insert_by-All x (sort_by key xs) h.0 (sort_by-All xs h.1)

-- An entry of a map is what a lookup of its key finds.
abbrev IsEntry : Dict Bytes → Bytes × Bytes → Type 0
IsEntry m e = lookup e.0 m ≡ some e.1

IsEntry-cons :
    (j w : Bytes) (m xs : Dict Bytes)
    → Absent j xs
    → All (IsEntry m) xs
    → All (IsEntry ((j, w) ∷ m)) xs
unfolding lookup
IsEntry-cons j w m [] a h = tt
IsEntry-cons j w m ((i, v) ∷ xs) a h = (rw other h.0, IsEntry-cons j w m xs a.1 h.1)
  where
    other : str_eq j i ≡ false
    other = ground (arith, str_eq_iff j i, str_eq_iff i j, a.0)

IsMap-IsEntry : (m : Dict Bytes) → IsMap m → All (IsEntry m) m
unfolding lookup
IsMap-IsEntry [] h = tt
IsMap-IsEntry ((j, w) ∷ m) h =
    (rw ((str_eq_iff j j).1 refl) refl, IsEntry-cons j w m m h.0 (IsMap-IsEntry m h.1))

module _ (place : Bytes → Bytes) (known remote here : Dict Bytes) where
  -- A change makes a file that is not there, or replaces one that is as it was at the last synchronisation.
  abbrev pub IsSafeChange : Change → Type 0
  IsSafeChange c =
      (p : Bytes) × (c.path ≡ place p)
      × (((lookup p here ≡ none) × (c.precondition ≡ absent))
          ⊎ ((d : Bytes) × (lookup p here ≡ some d)
              × (lookup p known ≡ some d)
              × (c.precondition ≡ holds d)))

  -- A removal is of a file that the snapshot has no more and that is as it was at the last
  -- synchronisation, and asks that it still be so.
  abbrev pub IsSafeRemoval : Removal → Type 0
  IsSafeRemoval r =
      (p : Bytes) × (d : Bytes) × (r.path ≡ place p)
      × (lookup p here ≡ some d)
      × (lookup p known ≡ some d)
      × (lookup p remote ≡ none)
      × (r.precondition ≡ holds d)

  abbrev pub IsSafe : Planned → Type 0
  IsSafe p = All IsSafeChange p.changes × All IsSafeRemoval p.removals

  take_remote-IsSafe :
      (contents : Dict Bytes) (item : Entry) (o had : Option Bytes) (rest : Planned)
      → lookup item.path here ≡ o
      → lookup item.path known ≡ had
      → IsSafe rest
      → IsSafe (take_remote place known contents item o had rest)
  unfolding take_remote
  take_remote-IsSafe contents item none had rest e k h =
      (((item.path, refl, inl (e, refl)), h.0), h.1)
  take_remote-IsSafe contents item (some d) none rest e k h = go (str_eq d item.sha256)
    where
      go :
          (b : Bool)
          → IsSafe (
              if b then rest else record rest {
                conflicts =
                    record {
                      path = item.path;
                      base_digest = [];
                      local_digest = d;
                      remote_digest = item.sha256;
                    }
                    ∷ rest.conflicts;
              })
      go true = h
      go false = h
  take_remote-IsSafe contents item (some d) (some b) rest e k h =
      elim (str_eq d item.sha256)
        as (λ same. IsSafe (
          if same
          then rest
          else (if str_eq d b
              then record rest {
                changes =
                    record {
                      path = place item.path;
                      contents = contents_at (lookup item.path contents);
                      precondition = holds d;
                    }
                    ∷ rest.changes;
              }
              else record rest {
                conflicts =
                    record {
                      path = item.path;
                      base_digest = b;
                      local_digest = d;
                      remote_digest = item.sha256;
                    }
                    ∷ rest.conflicts;
              }))) [ true ↦ h | false ↦ go (str_eq d b) refl ]
    where
      go :
          (same : Bool)
          → str_eq d b ≡ same
          → IsSafe (
              if same
              then record rest {
                changes =
                    record {
                      path = place item.path;
                      contents = contents_at (lookup item.path contents);
                      precondition = holds d;
                    }
                    ∷ rest.changes;
              }
              else record rest {
                conflicts =
                    record {
                      path = item.path;
                      base_digest = b;
                      local_digest = d;
                      remote_digest = item.sha256;
                    }
                    ∷ rest.conflicts;
              })
      go true s = (
        ((item.path, refl, inr (d, e, k ∙ ap some (sym ((str_eq_iff d b).0 s)), refl)), h.0),
        h.1,
      )
      go false s = h

  plan_remote-IsSafe :
      (contents : Dict Bytes) (items : List Entry) (rest : Planned)
      → IsSafe rest
      → IsSafe (plan_remote place known contents here items rest)
  unfolding plan_remote
  plan_remote-IsSafe contents [] rest h = h
  plan_remote-IsSafe contents (item ∷ items) rest h =
      take_remote-IsSafe contents item _ _ _ refl refl (plan_remote-IsSafe contents items rest h)

  take_local-IsSafe :
      (p d : Bytes) (still had : Option Bytes) (rest : Planned)
      → lookup p here ≡ some d
      → lookup p remote ≡ still
      → lookup p known ≡ had
      → IsSafe rest
      → IsSafe (take_local place known p d still had rest)
  unfolding take_local
  take_local-IsSafe p d (some s) had rest x e k h = h
  take_local-IsSafe p d none none rest x e k h = h
  take_local-IsSafe p d none (some b) rest x e k h = go (str_eq d b) refl
    where
      go :
          (same : Bool)
          → str_eq d b ≡ same
          → IsSafe (
              if same
              then record rest {
                removals = record { path = place p; precondition = holds d } ∷ rest.removals;
              }
              else record rest {
                conflicts =
                    record { path = p; base_digest = b; local_digest = d; remote_digest = [] }
                    ∷ rest.conflicts;
              })
      go true s = (h.0, ((p, d, refl, x, k ∙ ap some (sym ((str_eq_iff d b).0 s)), e, refl), h.1))
      go false s = h

  plan_local-IsSafe :
      (files : Dict Bytes) (rest : Planned)
      → All (IsEntry here) files
      → IsSafe rest
      → IsSafe (plan_local place known remote files rest)
  unfolding plan_local
  plan_local-IsSafe [] rest x h = h
  plan_local-IsSafe ((p, d) ∷ files) rest x h =
      take_local-IsSafe p d _ _ _ x.0 refl refl (plan_local-IsSafe files rest x.1 h)

unless_nothing-ok : (p q : Planned) → unless_nothing p ≡ ok q → p ≡ q
unfolding unless_nothing
unless_nothing-ok p q e = go (is_nothing p.conflicts p.changes p.removals) e
  where
    go : (b : Bool) → (if b then err nothing_to_apply else ok p) ≡ ok q → p ≡ q
    go true e = absurd (cc)
    go false e = ok_eq e

-- A pull replaces and removes only files that are, on disk, as they were at the last
-- synchronisation, and asks for that once more in the preconditions; it creates a file only
-- where there is none. The map of the local files has each path once, as every Go map has.
pub plan-IsSafe :
    (place : Bytes → Bytes) (base : Option (List Entry)) (here : Dict Bytes) (remote : List Entry)
    (contents : Dict Bytes) (p : Planned)
    → IsMap here
    → plan place base here remote contents ≡ ok p
    → IsSafe place (base_digests base) (digests remote []) here p
unfolding plan sorted
plan-IsSafe place base here remote contents p m e =
    let known = base_digests base in
    let gone = digests remote [] in
    let (c, r) =
      plan_local-IsSafe place known gone here here _ (IsMap-IsEntry here m)
        (plan_remote-IsSafe place known gone here contents remote nothing (tt, tt)) in
    subst (IsSafe place known gone here) (unless_nothing-ok _ p e) (
      sort_by-All (IsSafeChange place known gone here) (λ (c : Change). c.path) _ c,
      sort_by-All (IsSafeRemoval place known gone here) (λ (r : Removal). r.path) _ r,
    )
