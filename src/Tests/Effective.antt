-- ===== src/Tests/Effective.antt =====
-- internal/effective, at concrete inputs: a host whose route goes round, and one with a command.
use ssh_ui.Config.Line.{equal_keyword, Line, directive, values}
use ssh_ui.Config.Token.{split_arguments}
use ssh_ui.Config.Block.{blocks, Block, BlockKind, parse_pattern}
use ssh_ui.Base.{
  ◌≡◌, refl, true, false, Option, none, some, [], ◌∷◌, codes, to_lower, cut_byte, drop_while,
  str_eq, inl, inr, lookup, get_elem?, ◌+◌, arith, contains_any, contains_byte, has_prefix,
  trim_prefix,
}
use ssh_ui.Config.Parse.{parse, cut_return, split_separator, File}
use ssh_ui.Config.Graph.{Node, Graph}
use ssh_ui.Config.Block.Condition.{condition}
use ssh_ui.Effective.Danger.{Executable, scan}
use ssh_ui.Effective.Danger.Found.{Has, Runs, proxy_command, IsReported, scan-Has}
use ssh_ui.Effective.Reading.{Projection, value}
use ssh_ui.Effective.Provenance.{project}
use ssh_ui.Effective.Provenance.Winner.{project-total}
use ssh_ui.Effective.Jump.{Route, expand_route}
use ssh_ui.Effective.Jump.Bounds.{IsRoute, expand_route-IsRoute}

abbrev graph : Graph
graph = record {
  root = codes "/s/c";
  order = codes "/s/c" ∷ [];
  nodes =
      (
        codes "/s/c",
        record {
          path = codes "/s/c";
          editable = true;
          missing = false;
          file = some (
              parse
                (codes "Host a\nproxyjump b\nUser me\nHost b\nProxyJump a\nHost *\nuser you\n"));
          includes = [];
          loads = 1;
        },
      )
      ∷ [];
  diagnostics = [];
}

abbrev projection_of : Option Projection → Projection
projection_of none = record { alias = []; sources = []; complexities = [] }
projection_of (some p) = p

abbrev projected : Projection
projected = projection_of (project graph (codes "a"))

projected_lem : project graph (codes "a") ≡ some projected
unfolding project str_eq blocks parse drop_while cut_byte cut_return split_arguments split_separator
    equal_keyword
projected_lem = refl

project-total_example : (p : Projection) × (project graph (codes "a") ≡ some p)
project-total_example = project-total graph (codes "a")

-- the first file includes the second above a line of its own
abbrev including : Graph
including = record {
  root = codes "/s/c";
  order = codes "/s/c" ∷ codes "/s/d" ∷ [];
  nodes =
      (
        codes "/s/c",
        record {
          path = codes "/s/c";
          editable = true;
          missing = false;
          file = some (parse (codes "Include d\nUser me\n"));
          includes =
              record {
                from_path = codes "/s/c";
                line = 1;
                pattern = codes "d";
                expanded = codes "/s/d";
                matches = codes "/s/d" ∷ [];
                condition = [];
              }
              ∷ [];
          loads = 1;
        },
      )
      ∷ (
        codes "/s/d",
        record {
          path = codes "/s/d";
          editable = true;
          missing = false;
          file = some (parse (codes "User you\n"));
          includes = [];
          loads = 1;
        },
      )
      ∷ [];
  diagnostics = [];
}

abbrev merged : Projection
merged = projection_of (project including (codes "a"))

expand_route-IsRoute_example : (r : Route) × (expand_route graph (codes "a") ≡ some r) × IsRoute 0 r
expand_route-IsRoute_example = expand_route-IsRoute graph (codes "a")

abbrev commanded : File
commanded = parse (codes "Host c\n\tproxycommand nc %h\n")

abbrev commanded_node : Node
commanded_node = record {
  path = codes "/s/c";
  editable = true;
  missing = false;
  file = some commanded;
  includes = [];
  loads = 1;
}

abbrev command_graph : Graph
command_graph = record {
  root = codes "/s/c";
  order = codes "/s/c" ∷ [];
  nodes = (codes "/s/c", commanded_node) ∷ [];
  diagnostics = [];
}

abbrev command_block : Block
command_block = record {
  kind = BlockKind.host;
  header = some 0;
  start = 1;
  end = 2;
  patterns = record { raw = codes "c"; value = codes "c"; negated = false; wildcard = false } ∷ [];
  criteria = [];
}

abbrev command_line : Line
command_line = record {
  kind = directive;
  text = [];
  indent = codes "\t";
  keyword = codes "proxycommand";
  separator = codes " ";
  args =
      record { raw = codes "nc"; value = codes "nc"; lead = [] }
      ∷ record { raw = codes "%h"; value = codes "%h"; lead = codes " " }
      ∷ [];
  trailing = [];
  ending = codes "\n";
}

listed : Has (codes "/s/c") command_graph.order
unfolding Has
listed = inl refl

node_there : lookup (codes "/s/c") command_graph.nodes ≡ some commanded_node
unfolding lookup str_eq
node_there = refl

block_there : Has command_block (blocks commanded)
unfolding Has blocks parse drop_while cut_byte cut_return split_arguments split_separator
    equal_keyword values has_prefix parse_pattern trim_prefix contains_any contains_byte
block_there = inr (inl refl)

line_there : get_elem? commanded.lines (1 + 0) ≡ some command_line
unfolding parse cut_byte cut_return split_arguments split_separator
line_there = refl

keyword_there : Runs (to_lower command_line.keyword) (codes "ProxyCommand") false
unfolding to_lower
keyword_there = proxy_command

scan-Has_example :
    (x : Executable) × Has x (scan command_graph)
    × IsReported
        (codes "/s/c")
        (1 + 0)
        (condition commanded command_block)
        (codes "ProxyCommand")
        command_line.args
        false
        x
scan-Has_example =
    scan-Has command_graph (codes "/s/c") commanded_node commanded command_block 0 command_line
      (codes "ProxyCommand") false listed node_there refl block_there (omega arith) line_there refl
      keyword_there
