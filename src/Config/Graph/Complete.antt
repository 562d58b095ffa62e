-- ===== src/Config/Graph/Complete.antt =====
-- internal/config/graph.go: no match of an include is dropped in silence.
use ssh_ui.Base.{
  ℕ, zero, suc, ◌+◌, ◌≡◌, ◌⊎◌, inl, inr, refl, sym, subst, Bool, true, false, ◌||◌, Option, none,
  some, List, [], ◌∷◌, ◌++◌, arith, All, Bytes, codes, clean, str_eq, str_eq_refl, sort_by, Result,
  ok, err, ok_eq, bind-eq-ok, guard, is_abs,
}
use ssh_ui.Config.Line.{
  Line, LineKind, blank, comment, directive, unstructured, values, equal_keyword,
}
use ssh_ui.Config.Parse.{File, parse}
use ssh_ui.Config.Block.{block_at}
use ssh_ui.Config.Block.Condition.{condition}
use ssh_ui.Config.Include.{Resolver, ReadFailure, max_depth_of, expand_pattern, generated_lines}
use ssh_ui.Config.Graph.{
  warning, include_unreadable, include_unsupported, path_not_absolute, Graph, Edge, diagnose, seen,
  change, slices_contains, Enter, add_edge, set_file, set_missing, is_inside, note_matches,
  visit_glob, visit_expanded, visit_values, note_condition, include_values, visit_line, visit_lines,
  visit_file, walk, resolve,
}
use ssh_ui.Config.Graph.Includes.{ContentsCovered}
use ssh_ui.Config.Graph.Filled.{walk-covers, walk-seen, walk-contents}
use ssh_ui.Config.Graph.Covered.{IsCovered, AllMatches, AllMatches-map, IsComplete}
use ssh_ui.Config.Graph.Matches.{
  diagnose-completes, change-completes, add_node-completes, if-completes, visit_matches-completes,
  add_edge-includes, Enters, OrListed,
}

module _ (r : Resolver) (Q : Bytes → Type 0) where
  -- a list has what it lists
  listed : (ms : List Bytes) → All (λ match. slices_contains ms match ≡ true) ms
  unfolding slices_contains
  listed [] = tt
  listed (m ∷ ms) = (rw (str_eq_refl m) refl, weaken ms (listed ms))
    where
      weaken :
          (ns : List Bytes)
          → All (λ match. slices_contains ms match ≡ true) ns
          → All (λ match. (str_eq m match || slices_contains ms match) ≡ true) ns
      weaken [] h = tt
      weaken (n ∷ ns) (h, k) = (ground arith, weaken ns k)

  pending :
      (g : Graph) (ms ns : List Bytes)
      → All (λ match. slices_contains ms match ≡ true) ns
      → All (λ match. OrListed r Q ms match ⊎ IsCovered g match) ns
  pending g ms [] h = tt
  pending g ms (n ∷ ns) (h, k) = (inl (inr h), pending g ms ns k)

  none_dropped : (ms : List Bytes) (g : Graph) → IsComplete Q g → IsComplete (OrListed r Q ms) g
  none_dropped ms g h = AllMatches-map _ _ g.nodes more h
    where
      more :
          (match : Bytes)
          → (Q match ⊎ IsCovered g match)
          → OrListed r Q ms match ⊎ IsCovered g match
      more match (inl q) = inl (inl q)
      more match (inr k) = inr k

  note_matches-completes :
      (b : Bool) (path : Bytes) (line : ℕ) (expanded : Bytes) (ms : List Bytes) (g : Graph)
      → IsComplete Q g
      → IsComplete Q (note_matches r b path line expanded ms g)
  unfolding note_matches
  note_matches-completes true path line expanded [] g h = h
  note_matches-completes false path line expanded [] g h =
      diagnose-completes r Q _ _ path line expanded g h
  note_matches-completes b path line expanded (m ∷ ms) g h = h

  -- an edge without matches
  add_empty-completes :
      (path : Bytes) (e : Edge) (g : Graph)
      → e.matches ≡ []
      → IsComplete Q g
      → IsComplete Q (change path (add_edge e) g)
  add_empty-completes path e g q h =
      change-completes r Q path (add_edge e) g
        (λ n k. add_edge-includes r _ e n (subst (All _) (sym q) tt) k) h

  visit_glob-completes :
      (chain : List Bytes) (enter : Enter) (path : Bytes) (b : Bool) (e : Edge)
      (found : Result Bytes (List Bytes)) (g : Graph)
      → Enters r enter
      → e.matches ≡ []
      → IsComplete Q g
      → IsComplete Q (visit_glob r chain enter path b e found g)
  unfolding visit_glob
  visit_glob-completes chain enter path b e (err text) g n q h =
      add_empty-completes path e (diagnose warning include_unreadable path e.line text g) q
        (diagnose-completes r Q _ _ path e.line text g h)
  visit_glob-completes chain enter path b e (ok found) g n q h =
      let ms = sort_by (λ s. s) found in
      let noted = note_matches r b path e.line e.expanded ms g in
      visit_matches-completes r Q chain enter path e.line ms _ n (
        change-completes r (OrListed r Q ms) path (add_edge (record e { matches = ms })) noted
          (λ k a.
            add_edge-includes r _ (record e { matches = ms }) k (pending noted ms ms (listed ms)) a)
          (none_dropped ms noted (note_matches-completes b path e.line e.expanded ms g h)))

  visit_expanded-completes :
      (chain : List Bytes) (enter : Enter) (path : Bytes) (b : Bool) (e : Edge)
      (expanded : Option Bytes) (g : Graph)
      → Enters r enter
      → e.matches ≡ []
      → IsComplete Q g
      → IsComplete Q (visit_expanded r chain enter path b e expanded g)
  unfolding visit_expanded
  visit_expanded-completes chain enter path b e none g n q h =
      add_empty-completes path e (diagnose warning include_unsupported path e.line e.pattern g) q
        (diagnose-completes r Q _ _ path e.line e.pattern g h)
  visit_expanded-completes chain enter path b e (some expanded) g n q h =
      visit_glob-completes chain enter path b _ (r.glob expanded) g n q h

  visit_values-completes :
      (chain : List Bytes) (enter : Enter) (path : Bytes) (b : Bool) (line : ℕ) (text : Bytes)
      (vs : List Bytes) (g : Graph)
      → Enters r enter
      → IsComplete Q g
      → IsComplete Q (visit_values r chain enter path b line text vs g)
  unfolding visit_values
  visit_values-completes chain enter path b line text [] g n h = h
  visit_values-completes chain enter path b line text (v ∷ vs) g n h =
      visit_values-completes chain enter path b line text vs _ n
        (visit_expanded-completes chain enter path b _ (expand_pattern r v) g n refl h)

  include_values-completes :
      (chain : List Bytes) (enter : Enter) (path : Bytes) (b : Bool) (line : ℕ) (text : Bytes)
      (vs : List Bytes) (g : Graph)
      → Enters r enter
      → IsComplete Q g
      → IsComplete Q (include_values r chain enter path b line text vs g)
  unfolding include_values
  include_values-completes chain enter path b line text [] g n h =
      diagnose-completes r Q _ _ path line [] g h
  include_values-completes chain enter path b line text (v ∷ vs) g n h =
      visit_values-completes chain enter path b line text (v ∷ vs) g n h

  visit_line-completes :
      (chain : List Bytes) (enter : Enter) (path : Bytes) (f : File) (index : ℕ) (l : Line)
      (kind : LineKind) (g : Graph)
      → Enters r enter
      → IsComplete Q g
      → IsComplete Q (visit_line r chain enter path f index l kind g)
  unfolding visit_line note_condition
  visit_line-completes chain enter path f index l unstructured g n h =
      diagnose-completes r Q _ _ path _ _ g h
  visit_line-completes chain enter path f index l blank g n h = h
  visit_line-completes chain enter path f index l comment g n h = h
  visit_line-completes chain enter path f index l directive g n h =
      let text = condition f (block_at f index) in
      let noted =
        if-completes r Q (str_eq text []) g _ h
          (diagnose-completes r Q _ _ path (index + 1) text g h) in
      if-completes r Q (equal_keyword l.keyword (codes "Include")) _ g
        (include_values-completes chain enter path (is_inside r (generated_lines r f) index)
          (index + 1) text (values l) _ n noted)
        h

  visit_lines-completes :
      (chain : List Bytes) (enter : Enter) (path : Bytes) (f : File) (index : ℕ) (ls : List Line)
      (g : Graph)
      → Enters r enter
      → IsComplete Q g
      → IsComplete Q (visit_lines r chain enter path f index ls g)
  unfolding visit_lines
  visit_lines-completes chain enter path f index [] g n h = h
  visit_lines-completes chain enter path f index (l ∷ ls) g n h =
      visit_lines-completes chain enter path f (index + 1) ls _ n
        (visit_line-completes chain enter path f index l l.kind g n h)

  visit_file-completes :
      (chain : List Bytes) (enter : Enter) (path : Bytes) (read : Result ReadFailure Bytes)
      (g : Graph)
      → Enters r enter
      → IsComplete Q g
      → IsComplete Q (visit_file r chain enter path read g)
  unfolding visit_file
  visit_file-completes chain enter path (err e) g n h =
      diagnose-completes r Q _ _ path 0 e.text (change path (set_missing r e.not_exist) g)
        (change-completes r Q path (set_missing r e.not_exist) g (λ k a. a) h)
  visit_file-completes chain enter path (ok contents) g n h =
      let f = parse contents in
      visit_lines-completes (chain ++ (path ∷ [])) enter path f 0 f.lines _ n
        (change-completes r Q path (set_file r f) g (λ k a. a) h)

module _ (r : Resolver) where
  walk-IsComplete :
      (Q : Bytes → Type 0) (left : ℕ) (chain : List Bytes) (path : Bytes) (g : Graph)
      → IsComplete Q g
      → IsComplete Q (walk r left chain path g)
  unfolding walk
  walk-IsComplete Q zero chain path g h =
      visit_file-completes r Q chain none path (r.read_file path) _ tt
        (add_node-completes r Q path g h)
  walk-IsComplete Q (suc left) chain path g h =
      visit_file-completes r Q chain (some (walk r left (chain ++ (path ∷ [])))) path
        (r.read_file path) _
        (record {
          completes = λ S match k s c. walk-IsComplete S left (chain ++ (path ∷ [])) match k c;
          covers = walk-covers r left (chain ++ (path ∷ []));
        })
        (add_node-completes r Q path g h)

covered_only : (g : Graph) (match : Bytes) → (⊥ ⊎ IsCovered g match) → IsCovered g match
covered_only g match (inl e) = absurd e
covered_only g match (inr k) = k

-- Every match of an edge is covered, the file that was asked for is in the graph, and so is, or is
-- reported, whatever the Include lines of its files match.
abbrev pub IsWhole : Resolver → Bytes → Graph → Type 0
IsWhole r path g =
    AllMatches (IsCovered g) g.nodes
    × (seen g (clean path) ≡ true)
    × ((p : Bytes) → seen g p ≡ true → ContentsCovered r g p)

-- In a graph that is resolved, the file that was asked for is there. For each file of the graph
-- that the loader reads, each Include line of its contents, each value of the line and each file
-- that the loader answers for the pattern of the value, that file is in the graph too, or is
-- reported as a cycle or as too deep; so is every match of an edge.
pub resolve-IsWhole :
    (r : Resolver) (path : Bytes) (g : Graph) → resolve r path ≡ ok g → IsWhole r path g
unfolding resolve
resolve-IsWhole r path g h =
    let (t, a, e) = bind-eq-ok (guard (is_abs path) path_not_absolute) _ h in
    let start : Graph = record { root = clean path; order = []; nodes = []; diagnostics = [] } in
    let nothing : IsComplete (λ match. ⊥) start = unfold AllMatches in tt in
    subst (IsWhole r path) (ok_eq e) (
      AllMatches-map _ _ _ (covered_only (walk r (max_depth_of r) [] (clean path) start))
          (walk-IsComplete r (λ match. ⊥) (max_depth_of r) [] (clean path) start nothing),
      walk-seen r (max_depth_of r) [] (clean path) start,
      λ p s. walk-contents r (max_depth_of r) (clean path) start refl p s,
    )
