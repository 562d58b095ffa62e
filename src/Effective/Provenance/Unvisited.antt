-- ===== src/Effective/Provenance/Unvisited.antt =====
-- internal/effective/provenance.go: the files that the chain of the walk leaves.
use ssh_ui.Base.{
  ℕ, suc, ◌≤◌, ◌<◌, ◌≡◌, sym, subst, Bool, true, false, ◌||◌, some, List, [], ◌∷◌, arith, Bytes,
  str_eq, str_eq_iff, Bool-cases, inl, inr, if◌then◌else◌, length, Dict, lookup,
}
use ssh_ui.Config.Graph.{Node, slices_contains}

-- the files of the map that are not in the chain
pub unvisited : List Bytes → Dict Node → ℕ
unvisited chain [] = 0
unvisited chain ((p, n) ∷ ns) =
    let rest = unvisited chain ns in if slices_contains chain p then rest else suc rest

pub unvisited-length : (ns : Dict Node) → unvisited [] ns ≤ length ns
unfolding unvisited slices_contains
unvisited-length [] = omega arith
unvisited-length ((p, n) ∷ ns) = omega (arith, unvisited-length ns)

unvisited-cons :
    (path : Bytes) (chain : List Bytes) (ns : Dict Node)
    → unvisited (path ∷ chain) ns ≤ unvisited chain ns
unfolding unvisited slices_contains
unvisited-cons path chain [] = omega arith
unvisited-cons path chain ((p, n) ∷ ns) =
    go (str_eq path p) (slices_contains chain p) (unvisited-cons path chain ns)
  where
    go :
        (b c : Bool)
        → unvisited (path ∷ chain) ns ≤ unvisited chain ns
        → (if b || c then unvisited (path ∷ chain) ns else suc (unvisited (path ∷ chain) ns))
          ≤ (if c then unvisited chain ns else suc (unvisited chain ns))
    go true true h = h
    go true false h = omega arith
    go false true h = h
    go false false h = omega arith

-- A file of the map leaves those that are not visited once it is in the chain.
pub unvisited-visit :
    (path : Bytes) (chain : List Bytes) (ns : Dict Node) (n : Node)
    → lookup path ns ≡ some n
    → slices_contains chain path ≡ false
    → unvisited (path ∷ chain) ns < unvisited chain ns
unfolding unvisited slices_contains lookup
unvisited-visit path chain [] n h k = absurd (cc)
unvisited-visit path chain ((p, m) ∷ ns) n h k = elim (Bool-cases (str_eq p path)) [
  | inl e ↦ found ((str_eq_iff p path).0 e)
  | inr e ↦ behind e (str_eq-swap p path e) (
      unvisited-visit path chain ns n
        (subst (λ b. (if b then some m else lookup path ns) ≡ some n) e h) k)
]
  where
    str_eq-swap : (a b : Bytes) → str_eq a b ≡ false → str_eq b a ≡ false
    str_eq-swap a b h = ground (arith, str_eq_iff a b, str_eq_iff b a)

    found :
        p ≡ path
        → (if str_eq path p || slices_contains chain p
            then unvisited (path ∷ chain) ns
            else suc (unvisited (path ∷ chain) ns))
          < (if slices_contains chain p then unvisited chain ns else suc (unvisited chain ns))
    found e =
        let same : str_eq path p ≡ true = (str_eq_iff path p).1 (sym e) in
        let fresh : slices_contains chain p ≡ false =
          subst (λ q. slices_contains chain q ≡ false) (sym e) k in
        let fewer : unvisited (path ∷ chain) ns ≤ unvisited chain ns =
          unvisited-cons path chain ns in
        rw (same, fresh) (omega arith)

    behind :
        str_eq p path ≡ false
        → str_eq path p ≡ false
        → unvisited (path ∷ chain) ns < unvisited chain ns
        → (if str_eq path p || slices_contains chain p
            then unvisited (path ∷ chain) ns
            else suc (unvisited (path ∷ chain) ns))
          < (if slices_contains chain p then unvisited chain ns else suc (unvisited chain ns))
    behind e q h = rw q (go (slices_contains chain p) h)
      where
        go :
            (c : Bool)
            → unvisited (path ∷ chain) ns < unvisited chain ns
            → (if c then unvisited (path ∷ chain) ns else suc (unvisited (path ∷ chain) ns))
              < (if c then unvisited chain ns else suc (unvisited chain ns))
        go true h = h
        go false h = omega arith
