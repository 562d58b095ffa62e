-- ===== src/Config/Graph/Once.antt =====
-- internal/config/graph.go: each file of the graph is visited once.
use ssh_ui.Base.{
  ◌≡◌, ◌≢◌, arith, refl, ap, subst, ◌∙◌, true, false, some, List, [], ◌∷◌, ◌++◌, Bytes, clean,
  str_eq, str_eq_iff, Bool-cases, inl, inr, if◌then◌else◌, ok, ok_eq, bind-eq-ok, guard, is_abs,
  Dict, lookup, insert,
}
use ssh_ui.Config.Include.{Resolver, max_depth_of}
use ssh_ui.Config.Graph.{
  path_not_absolute, Node, Graph, diagnose, update, change, slices_contains, is_node, seen,
  add_node, resolve,
}
use ssh_ui.Config.Graph.Kept.{IsKept, walk-keeps}

pub keys : Dict Node → List Bytes
keys [] = []
keys ((p, n) ∷ ns) = p ∷ keys ns

-- no path stands twice
unfoldable pub Distinct : List Bytes → Type 0
Distinct [] = Unit
Distinct (p ∷ ps) = (slices_contains ps p ≡ false) × Distinct ps

-- The order lists the files of the map, each once.
abbrev pub IsOnce : Graph → Type 0
IsOnce g = (keys g.nodes ≡ g.order) × Distinct g.order

keys-update : (path : Bytes) (f : Node → Node) (ns : Dict Node) → keys (update path f ns) ≡ keys ns
unfolding keys update
keys-update path f [] = refl
keys-update path f ((p, n) ∷ ns) =
    elim (str_eq p path)
      as (λ b. keys ((if b then (p, f n) else (p, n)) ∷ update path f ns) ≡ p ∷ keys ns) [
        | true ↦ ap (◌∷◌ p) (keys-update path f ns)
        | false ↦ ap (◌∷◌ p) (keys-update path f ns)
      ]

-- a path that the map does not have
keys-insert :
    (path : Bytes) (n : Node) (ns : Dict Node)
    → is_node (lookup path ns) ≡ false
    → (keys (insert path n ns) ≡ keys ns ++ (path ∷ [])) × (slices_contains (keys ns) path ≡ false)
unfolding keys insert lookup is_node slices_contains
keys-insert path n [] h = (refl, refl)
keys-insert path n ((p, m) ∷ ns) h = elim (Bool-cases (str_eq p path)) [
  | inl e ↦ absurd (found e h)
  | inr e ↦ rw e (behind (keys-insert path n ns (next e h)))
]
  where
    found :
        str_eq p path ≡ true → is_node (if str_eq p path then some m else lookup path ns) ≢ false
    found e = rw e (λ k. cc)

    next :
        str_eq p path ≡ false
        → is_node (if str_eq p path then some m else lookup path ns) ≡ false
        → is_node (lookup path ns) ≡ false
    next e k = subst (λ b. is_node (if b then some m else lookup path ns) ≡ false) e k

    behind :
        (keys (insert path n ns) ≡ keys ns ++ (path ∷ []))
          × (slices_contains (keys ns) path ≡ false)
        → (p ∷ keys (insert path n ns) ≡ p ∷ (keys ns ++ (path ∷ [])))
          × (slices_contains (keys ns) path ≡ false)
    behind (k, a) = (ap (◌∷◌ p) k, a)

str_eq-swap : (a b : Bytes) → str_eq a b ≡ false → str_eq b a ≡ false
str_eq-swap a b h = ground (arith, str_eq_iff a b, str_eq_iff b a)

contains-snoc :
    (q p : Bytes) (ps : List Bytes)
    → slices_contains ps q ≡ false
    → str_eq p q ≡ false
    → slices_contains (ps ++ (p ∷ [])) q ≡ false
unfolding slices_contains
contains-snoc q p [] h k = rw k refl
contains-snoc q p (r ∷ ps) h k = ground (arith, contains-snoc q p ps)

Distinct-snoc :
    (ps : List Bytes) (p : Bytes)
    → Distinct ps
    → slices_contains ps p ≡ false
    → Distinct (ps ++ (p ∷ []))
unfolding Distinct slices_contains
Distinct-snoc [] p d h = (refl, tt)
Distinct-snoc (q ∷ ps) p (a, d) h =
    let (other, rest) : (str_eq q p ≡ false) × (slices_contains ps p ≡ false) =
      (ground arith, ground arith) in
    (contains-snoc q p ps a (str_eq-swap q p other), Distinct-snoc ps p d rest)

kept : (r : Resolver) → IsKept r IsOnce
unfolding diagnose change add_node seen
kept r = record {
  steady = record {
    diagnosed = λ severity code path line detail g h. h;
    changed = λ path f g h. (keys-update path f g.nodes ∙ h.0, h.1);
  };
  added = λ path g s h.
      let (e, a) = keys-insert path _ g.nodes s in
      (
        e ∙ ap (λ ps. ps ++ (path ∷ [])) h.0,
        Distinct-snoc g.order path h.1 (subst (λ ps. slices_contains ps path ≡ false) h.0 a),
      );
}

-- A graph that is resolved lists the files of its map, each of them once: whatever the files
-- include, each is read and visited once.
pub resolve-IsOnce : (r : Resolver) (path : Bytes) (g : Graph) → resolve r path ≡ ok g → IsOnce g
unfolding resolve
resolve-IsOnce r path g h =
    let (t, a, e) = bind-eq-ok (guard (is_abs path) path_not_absolute) _ h in
    subst IsOnce (ok_eq e) (
      walk-keeps r IsOnce (kept r) (max_depth_of r) [] (clean path) _
        (unfold seen lookup is_node in refl) (unfold keys Distinct in (refl, tt)))
