-- ===== src/Effective/Reading.antt =====
-- internal/effective/provenance.go, and `argumentText` of danger.go: how a block and a directive are
-- read. The closures of `Project` are functions on the state that they share.
use ssh_ui.Base.{
  ℕ, ◌+◌, Bool, true, false, not, ◌&&◌, ◌||◌, Option, none, some, List, [], ◌∷◌, ◌++◌, Bytes, codes,
  str_eq, to_lower, if◌then◌else◌, ltb, trim_space,
}
use ssh_ui.Config.Line.{Line, render_arguments}
use ssh_ui.Config.Parse.{File}
use ssh_ui.Config.Block.{Block, BlockKind, Pattern}
use ssh_ui.Config.Block.Condition.{condition}
use ssh_ui.Config.Graph.{slices_contains}
use ssh_ui.Glob.{Answer, answer, match_pattern}

-- `unkinded` is the empty kind
pub data SourceKind : Type 0 where
  exact wildcard global unkinded : SourceKind

pub data Reason : Type 0 where
  wildcard_pattern negated_pattern match_block duplicate_alias : Reason
  unresolved_include : Reason
  jump_invalid jump_cycle jump_depth_exceeded : Reason

pub record Source : Type 0 where
  pub keyword : Bytes
  pub value : Bytes
  pub path : Bytes
  pub line : ℕ
  pub condition : Bytes
  pub kind : SourceKind
  pub winner : Bool

pub record Complexity : Type 0 where
  pub code : Reason
  pub path : Bytes
  pub line : ℕ
  pub condition : Bytes
  pub detail : Bytes

pub record Projection : Type 0 where
  pub alias : Bytes
  pub sources : List Source
  pub complexities : List Complexity

-- `simple` is for a projection without complexities
is_nil : List Complexity → Bool
is_nil [] = true
is_nil (c ∷ cs) = false

unfoldable pub simple : Projection → Bool
unfolding is_nil
simple p = is_nil p.complexities

unfoldable pub value_in : Bytes → List Source → Option Source
value_in wanted [] = none
value_in wanted (s ∷ ss) =
    let rest = value_in wanted ss in
    if s.winner && str_eq (to_lower s.keyword) wanted then some s else rest

unfoldable pub value : Projection → Bytes → Option Source
unfolding value_in
value p keyword = value_in (to_lower keyword) p.sources

-- a pattern matches only when the loop says so
is_yes : Answer → Bool
is_yes (answer b) = b
is_yes _ = false

unfoldable pub matches_alias : Bytes → Pattern → Bool
unfolding is_yes
matches_alias alias p = is_yes (match_pattern p.value alias)

unfoldable pub is_excluded : Bytes → List Pattern → Bool
unfolding matches_alias
is_excluded alias [] = false
is_excluded alias (p ∷ ps) = p.negated && matches_alias alias p || is_excluded alias ps

unfoldable pub first_match : Bytes → List Pattern → SourceKind × Bool
unfolding matches_alias
first_match alias [] = (unkinded, false)
first_match alias (p ∷ ps) =
    let rest = first_match alias ps in
    if p.negated || not (matches_alias alias p)
    then rest
    else ((if p.wildcard then wildcard else exact), true)

by_kind : BlockKind → Bytes → List Pattern → SourceKind × Bool
unfolding is_excluded first_match
by_kind BlockKind.global alias ps = (global, true)
by_kind BlockKind.match alias ps = (unkinded, false)
by_kind BlockKind.host alias ps =
    if is_excluded alias ps then (unkinded, false) else first_match alias ps

unfoldable pub block_applies : Block → Bytes → SourceKind × Bool
unfolding by_kind
block_applies b alias = by_kind b.kind alias b.patterns

-- what the closures of `Project` share
pub record Reading : Type 0 where
  pub claimed : List Bytes
  pub matched_host_blocks : ℕ
  pub kind : SourceKind
  pub applies : Bool
  pub condition : Bytes
  pub sources : List Source
  pub complexities : List Complexity

header_number : Option ℕ → ℕ
header_number none = 0
header_number (some h) = h + 1

noted : Bool → Reason → Bytes → Block → Bytes → Bytes → List Complexity
unfolding header_number
noted false code path b text detail = []
noted true code path b text detail =
    record {
      code = code;
      path = path;
      line = header_number b.header;
      condition = text;
      detail = detail;
    }
    ∷ []

is_wildcard : SourceKind → Bool
is_wildcard wildcard = true
is_wildcard _ = false

-- the first negated pattern
first_negated : List Pattern → Option Bytes
first_negated [] = none
first_negated (p ∷ ps) = let rest = first_negated ps in if p.negated then some p.raw else rest

negated_note : Option Bytes → Bytes → Block → Bytes → List Complexity
unfolding noted
negated_note none path b text = []
negated_note (some raw) path b text =
    noted true negated_pattern path b text (codes "this block excludes hosts through " ++ raw)

unfoldable pub note_host : Bytes → Block → Bytes → SourceKind → ℕ → List Complexity
unfolding noted negated_note first_negated is_wildcard
note_host path b text kind count =
    noted (ltb 1 count) duplicate_alias path b text
      (codes "more than one Host block claims this alias")
    ++ (noted (is_wildcard kind) wildcard_pattern path b text
          (codes "this block matched through a wildcard pattern")
        ++ negated_note (first_negated b.patterns) path b text)

unfoldable pub enter_kind : BlockKind → Bool → Bytes → Block → Reading → Reading
unfolding note_host noted
enter_kind BlockKind.match applies path b s = record s {
  complexities =
      s.complexities
      ++ noted true match_block path b s.condition (
          codes
            "Match criteria are evaluated while connecting, so this block may override values shown here");
}
enter_kind BlockKind.host true path b s =
    let count = s.matched_host_blocks + 1 in
    record s {
      matched_host_blocks = count;
      complexities = s.complexities ++ note_host path b s.condition s.kind count;
    }
enter_kind _ applies path b s = s

-- the closure `enterBlock`
unfoldable pub enter_block : Bytes → Bytes → File → Block → Reading → Reading
unfolding enter_kind block_applies condition
enter_block alias path f b s =
    let (kind, applies) = block_applies b alias in
    enter_kind b.kind applies path b
      (record s { condition = condition f b; kind = kind; applies = applies })

unfoldable pub argument_text : Line → Bytes
unfolding render_arguments trim_space
argument_text l = trim_space (render_arguments l.args)

-- the closure `directive`
unfoldable pub take_directive : Bytes → ℕ → Line → Reading → Reading
unfolding slices_contains argument_text
take_directive path index l s = if not s.applies then s else record s {
  sources =
      s.sources
      ++ (record {
        keyword = l.keyword;
        value = argument_text l;
        path = path;
        line = index + 1;
        condition = s.condition;
        kind = s.kind;
        winner = not (slices_contains s.claimed (to_lower l.keyword));
      }
          ∷ []);
  claimed = to_lower l.keyword ∷ s.claimed;
}
