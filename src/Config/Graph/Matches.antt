-- ===== src/Config/Graph/Matches.antt =====
-- internal/config/graph.go: the loop over the matches covers each of them.
use ssh_ui.Base.{
  ℕ, ◌≡◌, ◌⊎◌, inl, inr, refl, subst, Bool, true, false, ◌||◌, none, some, List, [], ◌∷◌, arith,
  All, All-append, Bytes, str_eq, str_eq_iff, Bool-cases, if◌then◌else◌, Dict,
}
use ssh_ui.Config.Include.{Resolver}
use ssh_ui.Config.Graph.{
  Severity, Code, include_cycle, include_depth_exceeded, Node, Graph, Edge, diagnose, inside_root,
  update, change, slices_contains, seen, Enter, add_load, add_edge, enter_match, note_root,
  visit_noted, visit_match, visit_matches, add_node,
}
use ssh_ui.Config.Graph.Covered.{
  IsCovered, is_skip, AllMatches, AllMatches-map, AllMatches-update, AllMatches-insert, IsComplete,
  covered-diagnose, covered-skip, covered-change, covered-add_node,
}

module _ (r : Resolver) where
  grown :
      (Q : Bytes → Type 0) (g h : Graph) (ns : Dict Node)
      → ((match : Bytes) → IsCovered g match → IsCovered h match)
      → AllMatches (λ match. Q match ⊎ IsCovered g match) ns
      → AllMatches (λ match. Q match ⊎ IsCovered h match) ns
  grown Q g h ns f c = AllMatches-map _ _ ns more c
    where
      more : (match : Bytes) → (Q match ⊎ IsCovered g match) → Q match ⊎ IsCovered h match
      more match (inl q) = inl q
      more match (inr k) = inr (f match k)

  pub diagnose-completes :
      (Q : Bytes → Type 0) (severity : Severity) (code : Code) (path : Bytes) (line : ℕ)
      (detail : Bytes) (g : Graph)
      → IsComplete Q g
      → IsComplete Q (diagnose severity code path line detail g)
  diagnose-completes Q severity code path line detail g c =
      let h = diagnose severity code path line detail g in
      unfold diagnose in grown Q g h g.nodes (covered-diagnose severity code path line detail g) c

  pub change-completes :
      (Q : Bytes → Type 0) (path : Bytes) (f : Node → Node) (g : Graph)
      → ((n : Node)
          → All (λ (e : Edge). All (λ match. Q match ⊎ IsCovered g match) e.matches) n.includes
          → All (λ (e : Edge). All (λ match. Q match ⊎ IsCovered g match) e.matches) (f n).includes)
      → IsComplete Q g
      → IsComplete Q (change path f g)
  change-completes Q path f g k c =
      let h = change path f g in
      unfold change in
      grown Q g h (update path f g.nodes) (covered-change path f g)
        (AllMatches-update (λ match. Q match ⊎ IsCovered g match) path f g.nodes k c)

  pub add_node-completes :
      (Q : Bytes → Type 0) (path : Bytes) (g : Graph)
      → IsComplete Q g
      → IsComplete Q (add_node r path g)
  add_node-completes Q path g c =
      let h = add_node r path g in
      unfold add_node in
      grown Q g h _ (covered-add_node r path g)
        (AllMatches-insert (λ match. Q match ⊎ IsCovered g match) path _ g.nodes tt c)

  -- what a deeper `walk` does
  pub record IsEntering (enter : Bytes → Graph → Graph) : Type 1 where
    pub completes :
        (Q : Bytes → Type 0) (match : Bytes) (g : Graph)
        → seen g match ≡ false
        → IsComplete Q g
        → IsComplete Q (enter match g)
    pub covers : (match : Bytes) (g : Graph) → IsCovered (enter match g) match

  abbrev pub Enters : Enter → Type 1
  Enters none = Unit
  Enters (some enter) = IsEntering enter

  pub if-completes :
      (Q : Bytes → Type 0) (b : Bool) (g h : Graph)
      → IsComplete Q g
      → IsComplete Q h
      → IsComplete Q (if b then g else h)
  if-completes Q true g h c d = c
  if-completes Q false g h c d = d

  pub add_edge-includes :
      (P : Bytes → Type 0) (e : Edge) (n : Node)
      → All P e.matches
      → All (λ (e : Edge). All P e.matches) n.includes
      → All (λ (e : Edge). All P e.matches) (add_edge e n).includes
  add_edge-includes P e n k h =
      All-append (λ (e : Edge). All P e.matches) n.includes (e ∷ []) h (k, tt)

  visit_noted-completes :
      (Q : Bytes → Type 0) (c s : Bool) (enter : Enter) (path : Bytes) (line : ℕ) (match : Bytes)
      (g : Graph)
      → Enters enter
      → seen g match ≡ s
      → IsComplete Q g
      → IsComplete Q (visit_noted r c s enter path line match g)
  unfolding visit_noted enter_match
  visit_noted-completes Q true s enter path line match g e q h =
      diagnose-completes Q _ _ path line match g h
  visit_noted-completes Q false true enter path line match g e q h =
      diagnose-completes Q _ _ path line match _ (change-completes Q match add_load g (λ n k. k) h)
  visit_noted-completes Q false false none path line match g e q h =
      diagnose-completes Q _ _ path line match g h
  visit_noted-completes Q false false (some enter) path line match g e q h =
      e.completes Q match g q h

  -- a deeper `walk` covers what it enters
  abbrev pub Covers : Enter → Type 0
  Covers none = Unit
  Covers (some enter) = (match : Bytes) (g : Graph) → IsCovered (enter match g) match

  Enters-Covers : (enter : Enter) → Enters enter → Covers enter
  Enters-Covers none e = tt
  Enters-Covers (some enter) e = e.covers

  pub visit_noted-covers :
      (c s : Bool) (enter : Enter) (path : Bytes) (line : ℕ) (match : Bytes) (g : Graph)
      → Covers enter
      → seen g match ≡ s
      → IsCovered (visit_noted r c s enter path line match g) match
  unfolding visit_noted enter_match is_skip
  visit_noted-covers true s enter path line match g e q =
      covered-skip _ include_cycle path line g match refl
  visit_noted-covers false true enter path line match g e q =
      covered-diagnose _ _ path line match _ match
        (covered-change match add_load g match (rw q refl))
  visit_noted-covers false false none path line match g e q =
      covered-skip _ include_depth_exceeded path line g match refl
  visit_noted-covers false false (some enter) path line match g e q = e match g

  note_root-completes :
      (Q : Bytes → Type 0) (path : Bytes) (line : ℕ) (match : Bytes) (g : Graph)
      → IsComplete Q g
      → IsComplete Q (note_root r path line match g)
  unfolding note_root
  note_root-completes Q path line match g h =
      if-completes Q (inside_root r match) g _ h (diagnose-completes Q _ _ path line match g h)

  -- the matches that the loop has still to enter
  abbrev pub OrListed : (Bytes → Type 0) → List Bytes → Bytes → Type 0
  OrListed Q ms match = Q match ⊎ (slices_contains ms match ≡ true)

  no_longer :
      (Q : Bytes → Type 0) (m : Bytes) (ms : List Bytes) (g : Graph) (match : Bytes)
      → IsCovered g m
      → (OrListed Q (m ∷ ms) match ⊎ IsCovered g match)
      → OrListed Q ms match ⊎ IsCovered g match
  no_longer Q m ms g match c (inl (inl q)) = inl (inl q)
  no_longer Q m ms g match c (inr k) = inr k
  no_longer Q m ms g match c (inl (inr e)) = elim (Bool-cases (str_eq m match)) [
    | inl same ↦ inr (subst (IsCovered g) ((str_eq_iff m match).0 same) c)
    | inr other ↦ inl (inr (behind other (unfold slices_contains in e)))
  ]
    where
      behind :
          str_eq m match ≡ false
          → (str_eq m match || slices_contains ms match) ≡ true
          → slices_contains ms match ≡ true
      behind h k = ground arith

  pub visit_matches-completes :
      (Q : Bytes → Type 0) (chain : List Bytes) (enter : Enter) (path : Bytes) (line : ℕ)
      (ms : List Bytes) (g : Graph)
      → Enters enter
      → IsComplete (OrListed Q ms) g
      → IsComplete Q (visit_matches r chain enter path line ms g)
  unfolding visit_matches visit_match slices_contains
  visit_matches-completes Q chain enter path line [] g e h =
      AllMatches-map _ _ g.nodes nothing_left h
    where
      nothing_left :
          (match : Bytes) → (OrListed Q [] match ⊎ IsCovered g match) → Q match ⊎ IsCovered g match
      nothing_left match (inl (inl q)) = inl q
      nothing_left match (inl (inr k)) = absurd (cc)
      nothing_left match (inr k) = inr k
  visit_matches-completes Q chain enter path line (m ∷ ms) g e h =
      let noted = note_root r path line m g in
      let next = visit_noted r (slices_contains chain m) (seen noted m) enter path line m noted in
      let covered =
        visit_noted-covers (slices_contains chain m) _ enter path line m noted
          (Enters-Covers enter e) refl in
      visit_matches-completes Q chain enter path line ms next e (
        AllMatches-map _ _ next.nodes (λ match k. no_longer Q m ms next match covered k)
          (visit_noted-completes (OrListed Q (m ∷ ms)) (slices_contains chain m) _ enter path line m
            noted e refl (note_root-completes (OrListed Q (m ∷ ms)) path line m g h)))
