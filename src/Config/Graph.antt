-- ===== src/Config/Graph.antt =====
-- internal/config/graph.go. `walk` recurs on the depth that is left, so no fuel is needed: a loop
-- is given what `walk` does with a file one step deeper, or `none` where the depth is exceeded.
pub mod Kept
pub mod Once
pub mod Covered
pub mod Matches
pub mod Includes
pub mod Included
pub mod Filled
pub mod Complete
use ssh_ui.Base.{
  ℕ, zero, suc, ◌+◌, Bool, true, false, not, ◌&&◌, ◌||◌, Option, none, some, List, [], ◌∷◌, ◌++◌,
  Bytes, codes, str_eq, has_prefix, ltb, if◌then◌else◌, clean, is_abs, sort_by, Result, ok, err,
  Dict, lookup, insert, guard, ◌>>=◌, ◌>>◌,
}
use ssh_ui.Config.Line.{Line, LineKind, directive, unstructured, values, equal_keyword}
use ssh_ui.Config.Parse.{File, parse}
use ssh_ui.Config.Block.{block_at}
use ssh_ui.Config.Block.Condition.{condition}
use ssh_ui.Config.Include.{Resolver, ReadFailure, expand_pattern, max_depth_of, generated_lines}

pub data Severity : Type 0 where
  info warning error : Severity

pub data Code : Type 0 where
  include_no_match include_unreadable include_cycle include_duplicate include_conditional : Code
  include_outside_root include_depth_exceeded include_unsupported include_empty : Code
  unstructured_line : Code

pub data ResolveError : Type 0 where
  path_not_absolute : ResolveError

pub record Diagnostic : Type 0 where
  pub severity : Severity
  pub code : Code
  pub path : Bytes
  pub line : ℕ
  pub detail : Bytes

pub record Edge : Type 0 where
  pub from_path : Bytes
  pub line : ℕ
  pub pattern : Bytes
  pub expanded : Bytes
  pub matches : List Bytes
  pub condition : Bytes

pub record Node : Type 0 where
  pub path : Bytes
  pub editable : Bool
  pub missing : Bool
  pub file : Option File
  pub includes : List Edge
  pub loads : ℕ

pub record Graph : Type 0 where
  pub root : Bytes
  pub order : List Bytes
  pub nodes : Dict Node
  pub diagnostics : List Diagnostic

unfoldable pub diagnose : Severity → Code → Bytes → ℕ → Bytes → Graph → Graph
diagnose severity code path line detail g = record g {
  diagnostics =
      g.diagnostics
      ++ (record { severity = severity; code = code; path = path; line = line; detail = detail }
          ∷ []);
}

unfoldable pub inside_root : Resolver → Bytes → Bool
inside_root r candidate =
    let cleaned = clean candidate in
    str_eq cleaned r.root || has_prefix cleaned (r.root ++ codes "/")

-- a change of the node that the map holds under a path
unfoldable pub update : Bytes → (Node → Node) → Dict Node → Dict Node
update path f [] = []
update path f ((p, n) ∷ ns) =
    let rest = update path f ns in (if str_eq p path then (p, f n) else (p, n)) ∷ rest

unfoldable pub change : Bytes → (Node → Node) → Graph → Graph
unfolding update
change path f g = record g { nodes = update path f g.nodes }

-- `slicesContains`
unfoldable pub slices_contains : List Bytes → Bytes → Bool
slices_contains [] candidate = false
slices_contains (v ∷ vs) candidate = str_eq v candidate || slices_contains vs candidate

unfoldable pub is_node : Option Node → Bool
is_node none = false
is_node (some n) = true

unfoldable pub seen : Graph → Bytes → Bool
unfolding is_node lookup
seen g path = is_node (lookup path g.nodes)

-- what `walk` does one step deeper, unless that is too deep
abbrev pub Enter : Type 0
Enter = Option (Bytes → Graph → Graph)

abbrev pub add_load : Node → Node
add_load n = record n { loads = n.loads + 1 }

abbrev pub add_edge : Edge → Node → Node
add_edge e n = record n { includes = n.includes ++ (e ∷ []) }

module _ (r : Resolver) where
  unfoldable pub enter_match : Enter → Bytes → ℕ → Bytes → Graph → Graph
  unfolding diagnose
  enter_match none path line match g = diagnose error include_depth_exceeded path line match g
  enter_match (some enter) path line match g = enter match g

  unfoldable pub note_root : Bytes → ℕ → Bytes → Graph → Graph
  unfolding inside_root diagnose
  note_root path line match g =
      if inside_root r match then g else diagnose info include_outside_root path line match g

  -- for a match that is in the chain, or that the graph has
  unfoldable pub visit_noted : Bool → Bool → Enter → Bytes → ℕ → Bytes → Graph → Graph
  unfolding enter_match diagnose change
  visit_noted true was_seen enter path line match g = diagnose error include_cycle path line match g
  visit_noted false true enter path line match g =
      diagnose warning include_duplicate path line match (change match add_load g)
  visit_noted false false enter path line match g = enter_match enter path line match g

  -- the body of the loop over the matches
  unfoldable pub visit_match : List Bytes → Enter → Bytes → ℕ → Bytes → Graph → Graph
  unfolding visit_noted note_root slices_contains seen
  visit_match chain enter path line match g0 =
      let g = note_root path line match g0 in
      visit_noted (slices_contains chain match) (seen g match) enter path line match g

  unfoldable pub visit_matches : List Bytes → Enter → Bytes → ℕ → List Bytes → Graph → Graph
  unfolding visit_match
  visit_matches chain enter path line [] g = g
  visit_matches chain enter path line (m ∷ ms) g =
      visit_matches chain enter path line ms (visit_match chain enter path line m g)

  unfoldable pub is_inside : Option (ℕ × ℕ) → ℕ → Bool
  is_inside none index = false
  is_inside (some (start, end)) index = ltb start index && ltb index end

  unfoldable pub note_matches : Bool → Bytes → ℕ → Bytes → List Bytes → Graph → Graph
  unfolding diagnose
  note_matches generated path line expanded [] g =
      if generated then g else diagnose warning include_no_match path line expanded g
  note_matches generated path line expanded (m ∷ ms) g = g

  -- the answer of `Glob`, for an edge whose pattern is expanded
  unfoldable pub visit_glob :
      List Bytes → Enter → Bytes → Bool → Edge → Result Bytes (List Bytes) → Graph → Graph
  unfolding diagnose change visit_matches note_matches sort_by
  visit_glob chain enter path generated e (err text) g =
      change path (add_edge e) (diagnose warning include_unreadable path e.line text g)
  visit_glob chain enter path generated e (ok found) g =
      let matches = sort_by (λ s. s) found in
      visit_matches chain enter path e.line matches (
        change path (add_edge (record e { matches = matches }))
          (note_matches generated path e.line e.expanded matches g))

  unfoldable pub visit_expanded :
      List Bytes → Enter → Bytes → Bool → Edge → Option Bytes → Graph → Graph
  unfolding diagnose change visit_glob
  visit_expanded chain enter path generated e none g =
      change path (add_edge e) (diagnose warning include_unsupported path e.line e.pattern g)
  visit_expanded chain enter path generated e (some expanded) g =
      visit_glob chain enter path generated (record e { expanded = expanded }) (r.glob expanded) g

  -- the loop over the values
  unfoldable pub visit_values :
      List Bytes → Enter → Bytes → Bool → ℕ → Bytes → List Bytes → Graph → Graph
  unfolding visit_expanded expand_pattern
  visit_values chain enter path generated line condition [] g = g
  visit_values chain enter path generated line condition (v ∷ vs) g =
      visit_values chain enter path generated line condition vs (
        visit_expanded chain enter path generated
          (record {
            from_path = path;
            line = line;
            pattern = v;
            expanded = [];
            matches = [];
            condition = condition;
          })
          (expand_pattern r v) g)

  unfoldable pub note_condition : Bytes → ℕ → Bytes → Graph → Graph
  unfolding diagnose
  note_condition path line condition g =
      if str_eq condition [] then g else diagnose warning include_conditional path line condition g

  unfoldable pub include_values :
      List Bytes → Enter → Bytes → Bool → ℕ → Bytes → List Bytes → Graph → Graph
  unfolding diagnose visit_values
  include_values chain enter path generated line condition [] g =
      diagnose warning include_empty path line [] g
  include_values chain enter path generated line condition (v ∷ vs) g =
      visit_values chain enter path generated line condition (v ∷ vs) g

  -- the body of the loop over the lines
  unfoldable pub visit_line :
      List Bytes → Enter → Bytes → File → ℕ → Line → LineKind → Graph → Graph
  unfolding diagnose include_values note_condition is_inside generated_lines condition block_at
  visit_line chain enter path f index l unstructured g =
      diagnose info unstructured_line path (index + 1)
        (codes "line is preserved verbatim and can only be edited as raw text") g
  visit_line chain enter path f index l directive g =
      let text = condition f (block_at f index) in
      if equal_keyword l.keyword (codes "Include")
      then include_values chain enter path (is_inside (generated_lines r f) index) (index + 1) text
          (values l) (note_condition path (index + 1) text g)
      else g
  visit_line chain enter path f index l _ g = g

  unfoldable pub visit_lines : List Bytes → Enter → Bytes → File → ℕ → List Line → Graph → Graph
  unfolding visit_line
  visit_lines chain enter path f index [] g = g
  visit_lines chain enter path f index (l ∷ ls) g =
      visit_lines chain enter path f (index + 1) ls (visit_line chain enter path f index l l.kind g)

  abbrev pub set_file : File → Node → Node
  set_file f n = record n { file = some f }

  abbrev pub set_missing : Bool → Node → Node
  set_missing missing n = record n { missing = missing }

  unfoldable pub visit_file : List Bytes → Enter → Bytes → Result ReadFailure Bytes → Graph → Graph
  unfolding diagnose change visit_lines parse
  visit_file chain enter path (err e) g =
      diagnose error include_unreadable path 0 e.text (change path (set_missing e.not_exist) g)
  visit_file chain enter path (ok contents) g =
      let f = parse contents in
      visit_lines (chain ++ (path ∷ [])) enter path f 0 f.lines (change path (set_file f) g)

  unfoldable pub add_node : Bytes → Graph → Graph
  unfolding inside_root insert
  add_node path g = record g {
    nodes =
        insert path
          (record {
            path = path;
            editable = inside_root r path;
            missing = false;
            file = none;
            includes = [];
            loads = 1;
          })
          g.nodes;
    order = g.order ++ (path ∷ []);
  }

  unfoldable pub walk : ℕ → List Bytes → Bytes → Graph → Graph
  unfolding visit_file add_node
  walk zero chain path g = visit_file chain none path (r.read_file path) (add_node path g)
  walk (suc left) chain path g =
      visit_file chain (some (walk left (chain ++ (path ∷ [])))) path (r.read_file path)
        (add_node path g)

  unfoldable pub resolve : Bytes → Result ResolveError Graph
  unfolding walk max_depth_of clean
  resolve root_path = do
    guard (is_abs root_path) path_not_absolute
    let root = clean root_path
    ok (
        walk (max_depth_of r) [] root
          (record { root = root; order = []; nodes = []; diagnostics = [] }))
