-- ===== src/Config/Block.antt =====
-- internal/config/block.go: the ranges of lines that the Host and Match lines govern.
pub mod Condition
pub mod Cover
pub mod Headers
use ssh_ui.Base.{
  ℕ, zero, suc, ◌+◌, ◌-◌, Bool, true, false, not, ◌&&◌, ◌||◌, Option, none, some, List, [], ◌∷◌,
  ◌++◌, map, Bytes, codes, has_prefix, contains_any, contains_byte, str_eq, to_lower, leb, ltb,
  ◌==◌, if◌then◌else◌, length, get_elem?, cut_byte, trim_prefix,
}
use ssh_ui.Config.Line.{
  LineKind, blank, comment, directive, unstructured, Line, values, equal_keyword,
}
use ssh_ui.Config.Parse.{File}

pub data BlockKind : Type 0 where
  global host match : BlockKind

pub record Pattern : Type 0 where
  pub raw : Bytes
  pub value : Bytes
  pub negated : Bool
  pub wildcard : Bool

pub record Criterion : Type 0 where
  pub keyword : Bytes
  pub argument : Bytes
  pub negated : Bool

-- The half-open range of lines of one header; `none` is the header -1 of the global block.
pub record Block : Type 0 where
  pub kind : BlockKind
  pub header : Option ℕ
  pub start : ℕ
  pub end : ℕ
  pub patterns : List Pattern
  pub criteria : List Criterion

unfoldable pub parse_pattern : Bytes → Pattern
parse_pattern value =
    let bare = trim_prefix b'!' value in
    record {
      raw = value;
      value = bare;
      negated = has_prefix value (codes "!");
      wildcard = contains_any (codes "*?") bare;
    }

unfoldable pub takes_argument : Bytes → Bool
takes_argument name =
    str_eq name (codes "exec")
    || str_eq name (codes "host")
    || str_eq name (codes "localnetwork")
    || str_eq name (codes "localuser")
    || str_eq name (codes "originalhost")
    || str_eq name (codes "tagged")
    || str_eq name (codes "user")

-- one criterion: what stands behind `!`, and the argument behind `=` if there is one
criterion : Bool → Bytes → Option (Bytes × Bytes) → Criterion
criterion negated keyword none = record {
  keyword = to_lower keyword;
  argument = [];
  negated = negated;
}
criterion negated keyword (some (name, argument)) = record {
  keyword = to_lower name;
  argument = argument;
  negated = negated;
}

-- the loop of `parseCriteria`; the criterion that stands open takes the next value as its argument
criteria_loop : Option Criterion → List Bytes → List Criterion
criteria_loop none [] = []
criteria_loop (some open_one) [] = open_one ∷ []
criteria_loop (some open_one) (v ∷ vs) = record open_one { argument = v } ∷ criteria_loop none vs
criteria_loop none (v ∷ vs) =
    let keyword = trim_prefix b'!' v in
    let cut = cut_byte b'=' keyword in
    let c = criterion (has_prefix v (codes "!")) keyword cut in
    let opened = criteria_loop (some c) vs in
    let closed = c ∷ criteria_loop none vs in
    elim cut [ some _ ↦ closed | none ↦ if takes_argument c.keyword then opened else closed ]

unfoldable pub parse_criteria : List Bytes → List Criterion
unfolding criteria_loop criterion
parse_criteria vs = criteria_loop none vs

-- the block that a line opens, at its index
header_block : LineKind → Line → ℕ → Option Block
header_block directive l index =
    if equal_keyword l.keyword (codes "Host")
    then some (record {
      kind = host;
      header = some index;
      start = index + 1;
      end = 0;
      patterns = map parse_pattern (values l);
      criteria = [];
    })
    else if equal_keyword l.keyword (codes "Match")
    then some (record {
      kind = match;
      header = some index;
      start = index + 1;
      end = 0;
      patterns = [];
      criteria = parse_criteria (values l);
    })
    else none
header_block _ l index = none

unfoldable pub opens : Line → ℕ → Option Block
unfolding header_block
opens l index = header_block l.kind l index

-- the loop of `Blocks`, with the block that is open; a header line ends it
unfoldable pub block_loop : Block → ℕ → List Line → List Block
unfolding opens
block_loop current index [] = record current { end = index } ∷ []
block_loop current index (l ∷ ls) = elim (opens l index) [
  | none ↦ block_loop current (index + 1) ls
  | some next ↦ record current { end = index } ∷ block_loop next (index + 1) ls
]

abbrev pub global_block : Block
global_block = record {
  kind = global;
  header = none;
  start = 0;
  end = 0;
  patterns = [];
  criteria = [];
}

unfoldable pub blocks : File → List Block
unfolding block_loop
blocks f = block_loop global_block 0 f.lines

unfoldable pub is_header : Option ℕ → ℕ → Bool
is_header none line = false
is_header (some h) line = h == line

unfoldable pub governs : Block → ℕ → Bool
unfolding is_header
governs b line = is_header b.header line || leb b.start line && ltb line b.end

-- the loop of `BlockAt` keeps the last block that governs the line
unfoldable pub last_governing : Block → List Block → ℕ → Block
unfolding governs
last_governing found [] line = found
last_governing found (b ∷ bs) line = last_governing (if governs b line then b else found) bs line

first_block : List Block → Block
first_block [] = global_block
first_block (b ∷ bs) = b

unfoldable pub block_at : File → ℕ → Block
unfolding blocks last_governing first_block
block_at f line = last_governing (first_block (blocks f)) (blocks f) line
