-- ===== src/Effective/Danger.antt =====
-- internal/effective/danger.go: the commands that the configuration runs. The digest of a text and
-- the decimal of a number are parameters. The graph is there.
pub mod Found
use ssh_ui.Base.{
  ℕ, zero, suc, ◌+◌, ◌-◌, Bool, true, false, not, ◌&&◌, ◌||◌, Option, none, some, List, [], ◌∷◌,
  ◌++◌, Bytes, codes, str_eq, to_lower, if◌then◌else◌, join, sort_by, Dict, lookup,
}
use ssh_ui.Config.Line.{Line, LineKind, directive}
use ssh_ui.Config.Parse.{File}
use ssh_ui.Config.Block.{Block, BlockKind, Criterion, blocks}
use ssh_ui.Config.Block.Condition.{condition}
use ssh_ui.Config.Comment.{slice}
use ssh_ui.Config.Graph.{Node, Graph}
use ssh_ui.Effective.Reading.{argument_text}

pub record Executable : Type 0 where
  pub keyword : Bytes
  pub command : Bytes
  pub path : Bytes
  pub line : ℕ
  pub condition : Bytes
  pub on_evaluate : Bool
  pub on_connect : Bool
  pub overridable : Bool

abbrev on_connection : Bytes → Bool → Executable
on_connection keyword overridable = record {
  keyword = keyword;
  command = [];
  path = [];
  line = 0;
  condition = [];
  on_evaluate = false;
  on_connect = true;
  overridable = overridable;
}

-- `executableDirectives`, by a keyword in lower case
unfoldable pub template_of : Bytes → Option Executable
template_of k =
    if str_eq k (codes "proxycommand")
    then some (on_connection (codes "ProxyCommand") false)
    else if str_eq k (codes "knownhostscommand")
    then some (on_connection (codes "KnownHostsCommand") false)
    else if str_eq k (codes "localcommand")
    then some (on_connection (codes "LocalCommand") true)
    else if str_eq k (codes "remotecommand")
    then some (on_connection (codes "RemoteCommand") true)
    else none

header_line : Option ℕ → ℕ
header_line none = 0
header_line (some h) = h + 1

-- the loop over the criteria of a Match block
unfoldable pub scan_criteria : Bytes → Block → Bytes → List Criterion → List Executable
unfolding header_line
scan_criteria path b text [] = []
scan_criteria path b text (c ∷ cs) =
    let rest = scan_criteria path b text cs in
    if str_eq c.keyword (codes "exec")
    then record {
      keyword = codes "Match exec";
      command = c.argument;
      path = path;
      line = header_line b.header;
      condition = text;
      on_evaluate = true;
      on_connect = true;
      overridable = false;
    }
      ∷ rest
    else rest

scan_header : BlockKind → Bytes → Block → Bytes → List Executable
unfolding scan_criteria
scan_header BlockKind.match path b text = scan_criteria path b text b.criteria
scan_header _ path b text = []

abbrev pub filled_in : Bytes → ℕ → Line → Bytes → Executable → Executable
filled_in path index l text e = record e {
  command = argument_text l;
  path = path;
  line = index + 1;
  condition = text;
}

unfoldable pub from_template : Bytes → ℕ → Line → Bytes → Option Executable → List Executable
from_template path index l text none = []
from_template path index l text (some e) = filled_in path index l text e ∷ []

unfoldable pub scan_line : Bytes → ℕ → Line → Bytes → LineKind → List Executable
unfolding template_of from_template
scan_line path index l text directive =
    from_template path index l text (template_of (to_lower l.keyword))
scan_line path index l text _ = []

-- the loop over the lines of a block
unfoldable pub scan_lines : Bytes → ℕ → Bytes → List Line → List Executable
unfolding scan_line
scan_lines path index text [] = []
scan_lines path index text (l ∷ ls) =
    scan_line path index l text l.kind ++ scan_lines path (index + 1) text ls

unfoldable pub scan_block : Bytes → File → Block → List Executable
unfolding scan_header scan_lines condition slice
scan_block path f b =
    let text = condition f b in
    scan_header b.kind path b text
    ++ scan_lines path b.start text (slice f.lines b.start (b.end - b.start))

unfoldable pub scan_blocks : Bytes → File → List Block → List Executable
unfolding scan_block
scan_blocks path f [] = []
scan_blocks path f (b ∷ bs) = scan_block path f b ++ scan_blocks path f bs

unfoldable pub scan_file : Bytes → Option File → List Executable
unfolding scan_blocks
scan_file path none = []
scan_file path (some f) = scan_blocks path f (blocks f)

unfoldable pub scan_node : Bytes → Option Node → List Executable
unfolding scan_file
scan_node path none = []
scan_node path (some n) = scan_file path n.file

-- the loop over the order
unfoldable pub scan_order : Graph → List Bytes → List Executable
unfolding scan_node lookup
scan_order g [] = []
scan_order g (path ∷ paths) = scan_node path (lookup path g.nodes) ++ scan_order g paths

unfoldable pub scan : Graph → List Executable
unfolding scan_order
scan g = scan_order g g.order

unfoldable pub evaluation_needs_confirmation : List Executable → Bool
evaluation_needs_confirmation [] = false
evaluation_needs_confirmation (e ∷ es) = e.on_evaluate || evaluation_needs_confirmation es

unfoldable pub connection_needs_confirmation : List Executable → Bool
connection_needs_confirmation [] = false
connection_needs_confirmation (e ∷ es) = true

unfoldable pub unavoidable : List Executable → List Executable
unavoidable [] = []
unavoidable (e ∷ es) =
    let rest = unavoidable es in if e.on_connect && not e.overridable then e ∷ rest else rest

module _ (digest : Bytes → Bytes) (itoa : ℕ → Bytes) where
  entry_text : Executable → Bytes
  entry_text e = join (0 ∷ []) (e.keyword ∷ e.command ∷ e.path ∷ itoa e.line ∷ e.condition ∷ [])

  entry_texts : List Executable → List Bytes
  unfolding entry_text
  entry_texts [] = []
  entry_texts (e ∷ es) = entry_text e ∷ entry_texts es

  unfoldable pub evidence : List Executable → Bytes
  unfolding entry_texts sort_by
  evidence es = digest (join (codes "\n") (sort_by (λ s. s) (entry_texts es)))
