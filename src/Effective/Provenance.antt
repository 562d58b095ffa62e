-- ===== src/Effective/Provenance.antt =====
-- internal/effective/provenance.go: `Project` and `walkLoadOrder`. The graph is there; without one
-- the source has no answer.
pub mod Unvisited
pub mod Walks
pub mod Order
pub mod Winner
use ssh_ui.Base.{
  ℕ, zero, suc, ◌+◌, Bool, true, false, not, ◌&&◌, ◌||◌, Option, none, some, List, [], ◌∷◌, ◌++◌,
  Bytes, codes, ◌==◌, str_eq, to_lower, if◌then◌else◌, length, ltb, trim_space, Dict, lookup,
}
use ssh_ui.Config.Line.{Line, LineKind, directive, render_arguments, equal_keyword}
use ssh_ui.Config.Parse.{File}
use ssh_ui.Config.Block.{Block, BlockKind, Pattern, blocks}
use ssh_ui.Config.Block.Condition.{condition}
use ssh_ui.Config.Graph.{
  Severity, info, warning, error, Code, Diagnostic, Edge, Node, Graph, slices_contains,
}
use ssh_ui.Glob.{Answer, answer, match_pattern}
use ssh_ui.Effective.Reading.{
  Source, Reason, unresolved_include, Complexity, Projection, Reading, SourceKind, global,
  enter_block, take_directive,
}

-- a recursion that the fuel has ended is `none`
abbrev pub and_then {ℓ κ} : {A : Type ℓ} {B : Type κ} → Option A → (A → Option B) → Option B
and_then none f = none
and_then (some a) f = f a

-- the next of the blocks, when its header is this line
pub next_block : List Block → ℕ → Option (Block × List Block)
next_block [] index = none
next_block (b ∷ bs) index = elim b.header [
  | none ↦ none
  | some h ↦ elim (h == index) [ true ↦ some (b, bs) | false ↦ none ]
]

-- what `walkLoadOrder` does with a match
abbrev pub Descend : Type 0
Descend = Bytes → Reading → Option Reading

unfoldable pub visit_all : Descend → List Bytes → Reading → Option Reading
visit_all descend [] s = some s
visit_all descend (m ∷ ms) s = and_then (descend m s) (visit_all descend ms)

unfoldable pub visit_edges : Descend → ℕ → List Edge → Reading → Option Reading
unfolding visit_all
visit_edges descend line [] s = some s
visit_edges descend line (e ∷ es) s = elim (e.line == line) [
  | true ↦ and_then (visit_all descend e.matches s) (visit_edges descend line es)
  | false ↦ visit_edges descend line es s
]

unfoldable pub read_directive :
    Descend → Node → Bytes → ℕ → Line → LineKind → Reading → Option Reading
unfolding visit_edges take_directive
read_directive descend n path index l directive s =
    elim (equal_keyword l.keyword (codes "Include")) [
      | true ↦ visit_edges descend (index + 1) n.includes s
      | false ↦ some (take_directive path index l s)
    ]
read_directive descend n path index l _ s = some s

-- the body of the loop over the lines: the blocks that are left, and the state
unfoldable pub read_block_line :
    Descend
    → Bytes
    → Node
    → Bytes
    → File
    → ℕ
    → Line
    → List Block
    → Option (Block × List Block)
    → Reading
    → Option (List Block × Reading)
unfolding read_directive enter_block
read_block_line descend alias n path f index l bs (some (b, rest)) s =
    some (rest, enter_block alias path f b s)
read_block_line descend alias n path f index l bs none s =
    and_then (read_directive descend n path index l l.kind s) (λ t. some (bs, t))

unfoldable pub read_lines :
    Descend → Bytes → Node → Bytes → File → ℕ → List Block → List Line → Reading → Option Reading
unfolding read_block_line next_block
read_lines descend alias n path f index bs [] s = some s
read_lines descend alias n path f index bs (l ∷ ls) s =
    and_then (read_block_line descend alias n path f index l bs (next_block bs index) s)
      (λ step. read_lines descend alias n path f (index + 1) step.0 ls step.1)

-- a file has a block, as `Blocks` begins with the global one
unfoldable pub read_blocks :
    Descend → Bytes → Node → Bytes → File → List Block → Reading → Option Reading
unfolding read_lines enter_block
read_blocks descend alias n path f [] s = some s
read_blocks descend alias n path f (b ∷ bs) s =
    read_lines descend alias n path f 0 bs f.lines (enter_block alias path f b s)

unfoldable pub read_node_file :
    Descend → Bytes → Node → Bytes → Option File → Reading → Option Reading
unfolding read_blocks
read_node_file descend alias n path none s = some s
read_node_file descend alias n path (some f) s = read_blocks descend alias n path f (blocks f) s

unfoldable pub read_node : Descend → Bytes → Bytes → Option Node → Reading → Option Reading
unfolding read_node_file
read_node descend alias path none s = some s
read_node descend alias path (some n) s = read_node_file descend alias n path n.file s

-- the chain is what the map of the source holds
unfoldable pub walk_load_order : Graph → Bytes → ℕ → List Bytes → Descend
unfolding read_node lookup slices_contains
walk_load_order g alias zero chain path s = none
walk_load_order g alias (suc fuel) chain path s = elim (slices_contains chain path) [
  | true ↦ some s
  | false ↦
      read_node (walk_load_order g alias fuel (path ∷ chain)) alias path (lookup path g.nodes) s
]

detail_of : Code → Bytes
detail_of Code.include_no_match = codes "include_no_match"
detail_of Code.include_unreadable = codes "include_unreadable"
detail_of Code.include_cycle = codes "include_cycle"
detail_of Code.include_duplicate = codes "include_duplicate"
detail_of Code.include_conditional = codes "include_conditional"
detail_of Code.include_outside_root = codes "include_outside_root"
detail_of Code.include_depth_exceeded = codes "include_depth_exceeded"
detail_of Code.include_unsupported = codes "include_unsupported_expansion"
detail_of Code.include_empty = codes "include_without_argument"
detail_of Code.unstructured_line = codes "unstructured_line"

unresolved : Severity → Diagnostic → List Complexity
unfolding detail_of
unresolved info d = []
unresolved _ d =
    record {
      code = unresolved_include;
      path = d.path;
      line = d.line;
      condition = [];
      detail = detail_of d.code;
    }
    ∷ []

unfoldable pub all_unresolved : List Diagnostic → List Complexity
unfolding unresolved
all_unresolved [] = []
all_unresolved (d ∷ ds) = unresolved d.severity d ++ all_unresolved ds

abbrev pub unread : Reading
unread = record {
  claimed = [];
  matched_host_blocks = 0;
  kind = global;
  applies = true;
  condition = [];
  sources = [];
  complexities = [];
}

-- one round more than there are files
unfoldable pub project : Graph → Bytes → Option Projection
unfolding walk_load_order all_unresolved
project g alias = and_then (walk_load_order g alias (length g.nodes + 1) [] g.root unread) (λ s.
    some (record {
      alias = alias;
      sources = s.sources;
      complexities = s.complexities ++ all_unresolved g.diagnostics;
    }))
