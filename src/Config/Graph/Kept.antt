-- ===== src/Config/Graph/Kept.antt =====
-- internal/config/graph.go: what `walk` keeps, since each of its steps keeps it.
use ssh_ui.Base.{
  ℕ, zero, suc, ◌+◌, ◌≡◌, refl, Bool, true, false, Option, none, some, List, [], ◌∷◌, ◌++◌, Bytes,
  codes, str_eq, if◌then◌else◌, sort_by, Result, ok, err, Dict, lookup,
}
use ssh_ui.Config.Line.{
  Line, LineKind, blank, comment, directive, unstructured, values, equal_keyword,
}
use ssh_ui.Config.Parse.{File, parse}
use ssh_ui.Config.Block.{block_at}
use ssh_ui.Config.Block.Condition.{condition}
use ssh_ui.Config.Include.{Resolver, ReadFailure, expand_pattern, generated_lines}
use ssh_ui.Config.Graph.{
  Severity, Code, Node, Graph, Edge, diagnose, inside_root, update, change, slices_contains,
  is_node, seen, Enter, add_load, set_file, enter_match, note_root, visit_noted, visit_match,
  visit_matches, is_inside, note_matches, visit_glob, visit_expanded, visit_values, note_condition,
  include_values, visit_line, visit_lines, visit_file, add_node, walk,
}

-- A statement on graphs that every step keeps, but for the addition of a file.
pub record IsSteady (r : Resolver) (P : Graph → Type 0) : Type 0 where
  pub diagnosed :
      (severity : Severity) (code : Code) (path : Bytes) (line : ℕ) (detail : Bytes) (g : Graph)
      → P g
      → P (diagnose severity code path line detail g)
  pub changed : (path : Bytes) (f : Node → Node) (g : Graph) → P g → P (change path f g)

-- A statement on graphs that every step keeps.
pub record IsKept (r : Resolver) (P : Graph → Type 0) : Type 0 where
  pub steady : IsSteady r P
  pub added : (path : Bytes) (g : Graph) → seen g path ≡ false → P g → P (add_node r path g)

either :
    (c : Bool) (a b : Node) (x y : Option Node)
    → is_node x ≡ is_node y
    → is_node (if c then some a else x) ≡ is_node (if c then some b else y)
unfolding is_node
either true a b x y h = refl
either false a b x y h = h

lookup-update :
    (path k : Bytes) (f : Node → Node) (ns : Dict Node)
    → is_node (lookup k (update path f ns)) ≡ is_node (lookup k ns)
unfolding lookup update is_node
lookup-update path k f [] = refl
lookup-update path k f ((p, n) ∷ ns) =
    go (str_eq p path) (either (str_eq p k) (f n) n _ _ (lookup-update path k f ns))
      (either (str_eq p k) n n _ _ (lookup-update path k f ns))
  where
    go :
        (b : Bool)
        → is_node (if str_eq p k then some (f n) else lookup k (update path f ns))
          ≡ is_node (if str_eq p k then some n else lookup k ns)
        → is_node (if str_eq p k then some n else lookup k (update path f ns))
          ≡ is_node (if str_eq p k then some n else lookup k ns)
        → is_node (lookup k ((if b then (p, f n) else (p, n)) ∷ update path f ns))
          ≡ is_node (if str_eq p k then some n else lookup k ns)
    go true h k = h
    go false h k = k

pub seen-change :
    (path k : Bytes) (f : Node → Node) (g : Graph) → seen (change path f g) k ≡ seen g k
unfolding seen change
seen-change path k f g = lookup-update path k f g.nodes

module _ (r : Resolver) (P : Graph → Type 0) (kept : IsSteady r P) where
  if-keeps : (b : Bool) (g h : Graph) → P g → P h → P (if b then g else h)
  if-keeps true g h p q = p
  if-keeps false g h p q = q

  note_root-keeps :
      (path : Bytes) (line : ℕ) (match : Bytes) (g : Graph)
      → P g
      → P (note_root r path line match g)
  unfolding note_root
  note_root-keeps path line match g h =
      if-keeps (inside_root r match) g _ h (kept.diagnosed _ _ path line match g h)

  -- what a deeper `walk` keeps
  abbrev pub Enters : Enter → Type 0
  Enters none = Unit
  Enters (some enter) = (match : Bytes) (g : Graph) → seen g match ≡ false → P g → P (enter match g)

  pub visit_noted-keeps :
      (c s : Bool) (enter : Enter) (path : Bytes) (line : ℕ) (match : Bytes) (g : Graph)
      → Enters enter
      → seen g match ≡ s
      → P g
      → P (visit_noted r c s enter path line match g)
  unfolding visit_noted enter_match
  visit_noted-keeps true s enter path line match g e q h = kept.diagnosed _ _ path line match g h
  visit_noted-keeps false true enter path line match g e q h =
      kept.diagnosed _ _ path line match _ (kept.changed match add_load g h)
  visit_noted-keeps false false none path line match g e q h =
      kept.diagnosed _ _ path line match g h
  visit_noted-keeps false false (some enter) path line match g e q h = e match g q h

  pub visit_matches-keeps :
      (chain : List Bytes) (enter : Enter) (path : Bytes) (line : ℕ) (ms : List Bytes) (g : Graph)
      → Enters enter
      → P g
      → P (visit_matches r chain enter path line ms g)
  unfolding visit_matches visit_match
  visit_matches-keeps chain enter path line [] g e h = h
  visit_matches-keeps chain enter path line (m ∷ ms) g e h =
      visit_matches-keeps chain enter path line ms _ e (
        visit_noted-keeps (slices_contains chain m) _ enter path line m _ e refl
          (note_root-keeps path line m g h))

  note_matches-keeps :
      (b : Bool) (path : Bytes) (line : ℕ) (expanded : Bytes) (ms : List Bytes) (g : Graph)
      → P g
      → P (note_matches r b path line expanded ms g)
  unfolding note_matches
  note_matches-keeps true path line expanded [] g h = h
  note_matches-keeps false path line expanded [] g h = kept.diagnosed _ _ path line expanded g h
  note_matches-keeps b path line expanded (m ∷ ms) g h = h

  pub visit_glob-keeps :
      (chain : List Bytes) (enter : Enter) (path : Bytes) (b : Bool) (e : Edge)
      (found : Result Bytes (List Bytes)) (g : Graph)
      → Enters enter
      → P g
      → P (visit_glob r chain enter path b e found g)
  unfolding visit_glob
  visit_glob-keeps chain enter path b e (err text) g n h =
      kept.changed path _ _ (kept.diagnosed _ _ path e.line text g h)
  visit_glob-keeps chain enter path b e (ok found) g n h =
      visit_matches-keeps chain enter path e.line (sort_by (λ s. s) found) _ n (
        kept.changed path _ _
          (note_matches-keeps b path e.line e.expanded (sort_by (λ s. s) found) g h))

  pub visit_expanded-keeps :
      (chain : List Bytes) (enter : Enter) (path : Bytes) (b : Bool) (e : Edge)
      (expanded : Option Bytes) (g : Graph)
      → Enters enter
      → P g
      → P (visit_expanded r chain enter path b e expanded g)
  unfolding visit_expanded
  visit_expanded-keeps chain enter path b e none g n h =
      kept.changed path _ _ (kept.diagnosed _ _ path e.line e.pattern g h)
  visit_expanded-keeps chain enter path b e (some expanded) g n h =
      visit_glob-keeps chain enter path b _ (r.glob expanded) g n h

  pub visit_values-keeps :
      (chain : List Bytes) (enter : Enter) (path : Bytes) (b : Bool) (line : ℕ) (text : Bytes)
      (vs : List Bytes) (g : Graph)
      → Enters enter
      → P g
      → P (visit_values r chain enter path b line text vs g)
  unfolding visit_values
  visit_values-keeps chain enter path b line text [] g n h = h
  visit_values-keeps chain enter path b line text (v ∷ vs) g n h =
      visit_values-keeps chain enter path b line text vs _ n
        (visit_expanded-keeps chain enter path b _ (expand_pattern r v) g n h)

  note_condition-keeps :
      (path : Bytes) (line : ℕ) (text : Bytes) (g : Graph)
      → P g
      → P (note_condition r path line text g)
  unfolding note_condition
  note_condition-keeps path line text g h =
      if-keeps (str_eq text []) g _ h (kept.diagnosed _ _ path line text g h)

  include_values-keeps :
      (chain : List Bytes) (enter : Enter) (path : Bytes) (b : Bool) (line : ℕ) (text : Bytes)
      (vs : List Bytes) (g : Graph)
      → Enters enter
      → P g
      → P (include_values r chain enter path b line text vs g)
  unfolding include_values
  include_values-keeps chain enter path b line text [] g n h = kept.diagnosed _ _ path line [] g h
  include_values-keeps chain enter path b line text (v ∷ vs) g n h =
      visit_values-keeps chain enter path b line text (v ∷ vs) g n h

  visit_line-keeps :
      (chain : List Bytes) (enter : Enter) (path : Bytes) (f : File) (index : ℕ) (l : Line)
      (kind : LineKind) (g : Graph)
      → Enters enter
      → P g
      → P (visit_line r chain enter path f index l kind g)
  unfolding visit_line
  visit_line-keeps chain enter path f index l unstructured g n h = kept.diagnosed _ _ path _ _ g h
  visit_line-keeps chain enter path f index l blank g n h = h
  visit_line-keeps chain enter path f index l comment g n h = h
  visit_line-keeps chain enter path f index l directive g n h =
      let text = condition f (block_at f index) in
      let included =
        include_values-keeps chain enter path (is_inside r (generated_lines r f) index) (index + 1)
          text (values l) _ n (note_condition-keeps path (index + 1) text g h) in
      if-keeps (equal_keyword l.keyword (codes "Include")) _ g included h

  pub visit_lines-keeps :
      (chain : List Bytes) (enter : Enter) (path : Bytes) (f : File) (index : ℕ) (ls : List Line)
      (g : Graph)
      → Enters enter
      → P g
      → P (visit_lines r chain enter path f index ls g)
  unfolding visit_lines
  visit_lines-keeps chain enter path f index [] g n h = h
  visit_lines-keeps chain enter path f index (l ∷ ls) g n h =
      visit_lines-keeps chain enter path f (index + 1) ls _ n
        (visit_line-keeps chain enter path f index l l.kind g n h)

  pub visit_file-keeps :
      (chain : List Bytes) (enter : Enter) (path : Bytes) (read : Result ReadFailure Bytes)
      (g : Graph)
      → Enters enter
      → P g
      → P (visit_file r chain enter path read g)
  unfolding visit_file
  visit_file-keeps chain enter path (err e) g n h =
      kept.diagnosed _ _ path 0 e.text _ (kept.changed path _ g h)
  visit_file-keeps chain enter path (ok contents) g n h =
      let f = parse contents in
      visit_lines-keeps (chain ++ (path ∷ [])) enter path f 0 f.lines _ n
        (kept.changed path (set_file r f) g h)

module _ (r : Resolver) (P : Graph → Type 0) (kept : IsKept r P) where
  -- A walk from a file that the graph does not have keeps the statement.
  pub walk-keeps :
      (left : ℕ) (chain : List Bytes) (path : Bytes) (g : Graph)
      → seen g path ≡ false
      → P g
      → P (walk r left chain path g)
  unfolding walk
  walk-keeps zero chain path g s h =
      visit_file-keeps r P kept.steady chain none path (r.read_file path) _ tt
        (kept.added path g s h)
  walk-keeps (suc left) chain path g s h =
      visit_file-keeps r P kept.steady chain (some (walk r left (chain ++ (path ∷ [])))) path
        (r.read_file path) _ (λ match k t p. walk-keeps left (chain ++ (path ∷ [])) match k t p)
        (kept.added path g s h)
