-- ===== src/Config/Block/Headers.antt =====
-- internal/config/block.go: the header lines of a file, and the blocks they open.
use ssh_ui.Base.{
  ℕ, ◌+◌, ◌≡◌, refl, ◌∙◌, Bool, true, false, Option, none, some, List, [], ◌∷◌, map, codes,
  if◌then◌else◌, length,
}
use ssh_ui.Config.Line.{
  Line, LineKind, directive, blank, comment, unstructured, values, equal_keyword,
}
use ssh_ui.Config.Parse.{File}
use ssh_ui.Config.Block.{
  Block, BlockKind, host, match, parse_pattern, parse_criteria, header_block, opens, block_loop,
  global_block, blocks,
}
use ssh_ui.Config.Block.Cover.{Tiles, Tiles-blocks}

-- A line that opens a block: its index, the kind of the block, and the line.
pub record Header : Type 0 where
  pub index : ℕ
  pub kind : BlockKind
  pub line : Line

unfoldable pub header_kind : Line → LineKind → Option BlockKind
header_kind l directive =
    if equal_keyword l.keyword (codes "Host")
    then some host
    else if equal_keyword l.keyword (codes "Match")
    then some match
    else none
header_kind l _ = none

onto : ℕ → Line → Option BlockKind → List Header → List Header
onto index l none rest = rest
onto index l (some k) rest = record { index = index; kind = k; line = l } ∷ rest

-- The Host and Match lines of a list, in their order, with the index of each.
unfoldable pub header_lines : ℕ → List Line → List Header
unfolding header_kind onto
header_lines index [] = []
header_lines index (l ∷ ls) = onto index l (header_kind l l.kind) (header_lines (index + 1) ls)

abbrev HasValues : Line → Block → BlockKind → Type 0
HasValues l b BlockKind.host = (b.patterns ≡ map parse_pattern (values l)) × (b.criteria ≡ [])
HasValues l b BlockKind.match = (b.patterns ≡ []) × (b.criteria ≡ parse_criteria (values l))
HasValues l b BlockKind.global = ⊥

-- The block of a header line has its kind, its index, and the patterns or the criteria of its values.
abbrev pub IsOpenedBy : Header → Block → Type 0
IsOpenedBy h b = (b.kind ≡ h.kind) × (b.header ≡ some h.index) × HasValues h.line b h.kind

-- There is one block for each header line, in the same order.
abbrev pub AreOpenedBy : List Header → List Block → Type 0
AreOpenedBy [] [] = Unit
AreOpenedBy (h ∷ hs) (b ∷ bs) = IsOpenedBy h b × AreOpenedBy hs bs
AreOpenedBy _ _ = ⊥

-- The first block is the one that was open, and the others are those of the header lines.
abbrev pub Follows : Block → List Header → List Block → Type 0
Follows c hs [] = ⊥
Follows c hs (b ∷ bs) =
    (b.kind ≡ c.kind)
    × (b.header ≡ c.header)
    × (b.patterns ≡ c.patterns)
    × (b.criteria ≡ c.criteria)
    × AreOpenedBy hs bs

HasValues-of :
    (l : Line) (b c : Block) (k : BlockKind)
    → b.patterns ≡ c.patterns
    → b.criteria ≡ c.criteria
    → HasValues l c k
    → HasValues l b k
HasValues-of l b c BlockKind.host p q h = (p ∙ h.0, q ∙ h.1)
HasValues-of l b c BlockKind.match p q h = (p ∙ h.0, q ∙ h.1)
HasValues-of l b c BlockKind.global p q h = h

Follows-AreOpenedBy :
    (h : Header) (c : Block) (hs : List Header) (bs : List Block)
    → IsOpenedBy h c
    → Follows c hs bs
    → AreOpenedBy (h ∷ hs) bs
Follows-AreOpenedBy h c hs [] o f = absurd f
Follows-AreOpenedBy h c hs (b ∷ bs) o f =
    ((f.0 ∙ o.0, f.1 ∙ o.1, HasValues-of h.line b c h.kind f.2 f.3 o.2), f.4)

abbrev Agree : ℕ → Line → Option Block → Option BlockKind → Type 0
Agree index l none none = Unit
Agree index l (some b) (some k) = IsOpenedBy (record { index = index; kind = k; line = l }) b
Agree index l _ _ = ⊥

opens-Agree : (l : Line) (index : ℕ) → Agree index l (opens l index) (header_kind l l.kind)
unfolding opens header_kind
opens-Agree l index = go l.kind
  where
    named :
        (a b : Bool)
        → Agree index l
            (if a
              then some (record {
                kind = host;
                header = some index;
                start = index + 1;
                end = 0;
                patterns = map parse_pattern (values l);
                criteria = [];
              })
              else if b
              then some (record {
                kind = match;
                header = some index;
                start = index + 1;
                end = 0;
                patterns = [];
                criteria = parse_criteria (values l);
              })
              else none)
            (if a then some host else if b then some match else none)
    named true b = (refl, refl, (refl, refl))
    named false true = (refl, refl, (refl, refl))
    named false false = tt

    go : (k : LineKind) → Agree index l (header_block k l index) (header_kind l k)
    go directive =
        named (equal_keyword l.keyword (codes "Host")) (equal_keyword l.keyword (codes "Match"))
    go blank = tt
    go comment = tt
    go unstructured = tt

block_loop-Follows :
    (current : Block) (index : ℕ) (ls : List Line)
    → Follows current (header_lines index ls) (block_loop current index ls)
unfolding block_loop header_lines
block_loop-Follows current index [] = (refl, refl, refl, refl, tt)
block_loop-Follows current index (l ∷ ls) =
    go (opens l index) (header_kind l l.kind) (opens-Agree l index)
      (block_loop-Follows current (index + 1) ls) (λ next. block_loop-Follows next (index + 1) ls)
  where
    go :
        (o : Option Block) (k : Option BlockKind)
        → Agree index l o k
        → Follows current (header_lines (index + 1) ls) (block_loop current (index + 1) ls)
        → ((next : Block)
            → Follows next (header_lines (index + 1) ls) (block_loop next (index + 1) ls))
        → Follows current (onto index l k (header_lines (index + 1) ls)) (elim o [
          | none ↦ block_loop current (index + 1) ls
          | some next ↦ record current { end = index } ∷ block_loop next (index + 1) ls
        ])
    go none none a skip new = skip
    go none (some k) a skip new = absurd a
    go (some next) none a skip new = absurd a
    go (some next) (some k) a skip new = (
      refl,
      refl,
      refl,
      refl,
      Follows-AreOpenedBy (record { index = index; kind = k; line = l }) next
          (header_lines (index + 1) ls) (block_loop next (index + 1) ls) a (new next),
    )

-- The first block is the global one, at the first line. Behind it stands one block for each Host
-- and each Match line of the file, in their order, of the kind of the line and with the patterns
-- or criteria of its values. Each of these lines ends the block before it, the next block begins
-- right behind the line, and the last block ends with the file.
pub blocks-Tiles :
    (f : File)
    → Tiles (length f.lines) 0 none (blocks f)
      × Follows global_block (header_lines 0 f.lines) (blocks f)
unfolding blocks
blocks-Tiles f = (Tiles-blocks f, block_loop-Follows global_block 0 f.lines)
