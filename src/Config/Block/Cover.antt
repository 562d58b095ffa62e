-- ===== src/Config/Block/Cover.antt =====
-- internal/config/block.go: the blocks of a file, and its lines.
use ssh_ui.Base.{
  ℕ, ◌+◌, ◌≤◌, ◌<◌, ◌≡◌, refl, sym, subst, true, false, inl, inr, Option, none, some, List, [], ◌∷◌,
  arith, length, All, Bool-cases,
}
use ssh_ui.Config.Line.{Line, LineKind, directive, blank, comment, unstructured}
use ssh_ui.Config.Parse.{File}
use ssh_ui.Config.Block.{
  Block, header_block, opens, block_loop, global_block, blocks, is_header, governs, last_governing,
  first_block, block_at,
}

-- Blocks one behind another from line `s`, each but the first behind the header line that ends
-- the one before it, up to line `n`.
abbrev pub Tiles : ℕ → ℕ → Option ℕ → List Block → Type 0
Tiles n s h [] = ⊥
Tiles n s h (b ∷ []) = (b.start ≡ s) × (b.header ≡ h) × (s ≤ b.end) × (b.end ≡ n)
Tiles n s h (b ∷ c ∷ bs) =
    (b.start ≡ s)
    × (b.header ≡ h)
    × (s ≤ b.end)
    × (b.end < n)
    × Tiles n (b.end + 1) (some b.end) (c ∷ bs)

abbrev Opened : ℕ → Option Block → Type 0
Opened index none = Unit
Opened index (some b) = (b.start ≡ index + 1) × (b.header ≡ some index)

opens-Opened : (l : Line) (index : ℕ) → Opened index (opens l index)
unfolding opens
opens-Opened l index = go l.kind
  where
    go : (k : LineKind) → Opened index (header_block k l index)
    go directive = ground arith
    go blank = tt
    go comment = tt
    go unstructured = tt

Tiles-cons :
    (b : Block) (n s e i : ℕ) (h : Option ℕ) (bs : List Block)
    → b.start ≡ s
    → b.header ≡ h
    → s ≤ e
    → e < n
    → i ≡ e + 1
    → Tiles n i (some e) bs
    → Tiles n s h (record b { end = e } ∷ bs)
Tiles-cons b n s e i h [] p q r t j k = absurd k
Tiles-cons b n s e i h (c ∷ bs) p q r t j k =
    (p, q, r, t, subst (λ x. Tiles n x (some e) (c ∷ bs)) j k)

block_loop-Tiles :
    (current : Block) (index n : ℕ) (ls : List Line)
    → current.start ≤ index
    → index + length ls ≡ n
    → Tiles n current.start current.header (block_loop current index ls)
unfolding block_loop
block_loop-Tiles current index n [] s e = (refl, refl, s, omega arith)
block_loop-Tiles current index n (l ∷ ls) s e =
    go (opens l index) (opens-Opened l index)
      (block_loop-Tiles current (index + 1) n ls (omega arith) (omega arith))
      (λ next le. block_loop-Tiles next (index + 1) n ls le (omega arith))
  where
    go :
        (o : Option Block)
        → Opened index o
        → Tiles n current.start current.header (block_loop current (index + 1) ls)
        → ((next : Block)
            → next.start ≤ index + 1
            → Tiles n next.start next.header (block_loop next (index + 1) ls))
        → Tiles n current.start current.header (elim o [
          | none ↦ block_loop current (index + 1) ls
          | some next ↦ record current { end = index } ∷ block_loop next (index + 1) ls
        ])
    go none h skip new = skip
    go (some next) h skip new =
        Tiles-cons current n current.start index next.start current.header _ refl refl s
          (omega arith) h.0
          (subst (λ x. Tiles n next.start x (block_loop next (index + 1) ls)) h.1
            (new next (omega arith)))

pub Tiles-blocks : (f : File) → Tiles (length f.lines) 0 none (blocks f)
unfolding blocks
Tiles-blocks f =
    block_loop-Tiles global_block 0 (length f.lines) f.lines (omega arith) (omega arith)

abbrev Avoids : ℕ → List Block → Type 0
Avoids line bs = All (λ b. governs b line ≡ false) bs

governs-before :
    (b : Block) (s line : ℕ) (h : Option ℕ)
    → b.start ≡ s
    → b.header ≡ h
    → line < s
    → is_header h line ≡ false
    → governs b line ≡ false
unfolding governs
governs-before b s line h p q l i = rw (q, i) (ground arith)

Tiles-Avoids :
    (n s line : ℕ) (h : Option ℕ) (bs : List Block)
    → Tiles n s h bs
    → line < s
    → is_header h line ≡ false
    → Avoids line bs
Tiles-Avoids n s line h [] t l i = tt
Tiles-Avoids n s line h (b ∷ []) t l i = (governs-before b s line h t.0 t.1 l i, tt)
Tiles-Avoids n s line h (b ∷ c ∷ bs) t l i = (
  governs-before b s line h t.0 t.1 l i,
  Tiles-Avoids n (b.end + 1) line (some b.end) (c ∷ bs) t.4 (omega arith)
      (unfold is_header in ground arith),
)

last_governing-Avoids :
    (found : Block) (bs : List Block) (line : ℕ)
    → Avoids line bs
    → last_governing found bs line ≡ found
unfolding last_governing
last_governing-Avoids found [] line h = refl
last_governing-Avoids found (b ∷ bs) line h = rw h.0 (last_governing-Avoids found bs line h.1)

-- `b` alone governs the line, and the loop finds it.
record Finds (bs : List Block) (line : ℕ) (b : Block) : Type 0 where
  inside : governs b line ≡ true
  alone : All (λ c. governs c line ≡ true → c ≡ b) bs
  found : (x : Block) → last_governing x bs line ≡ b

alone_of :
    (b : Block) (line : ℕ) (bs : List Block)
    → Avoids line bs
    → All (λ c. governs c line ≡ true → c ≡ b) bs
alone_of b line [] h = tt
alone_of b line (c ∷ bs) h = (λ g. absurd (cc), alone_of b line bs h.1)

Finds-here :
    (b : Block) (bs : List Block) (line : ℕ)
    → governs b line ≡ true
    → Avoids line bs
    → Finds (b ∷ bs) line b
unfolding last_governing
Finds-here b bs line g h = record {
  inside = g;
  alone = (λ _. refl, alone_of b line bs h);
  found = λ x. rw g (last_governing-Avoids b bs line h);
}

Finds-there :
    (c b : Block) (bs : List Block) (line : ℕ)
    → governs c line ≡ false
    → Finds bs line b
    → Finds (c ∷ bs) line b
unfolding last_governing
Finds-there c b bs line g f = record {
  inside = f.inside;
  alone = (λ k. absurd (cc), f.alone);
  found = λ x. rw g (f.found x);
}

-- the line is the header of the first block or lies behind it
abbrev Reaches : Option ℕ → ℕ → ℕ → Type 0
Reaches none s line = s ≤ line
Reaches (some k) s line = (s ≡ k + 1) × (k ≤ line)

governs-inside :
    (b : Block) (s line : ℕ) (h : Option ℕ)
    → b.start ≡ s
    → b.header ≡ h
    → s ≤ b.end
    → governs b line ≡ true
    → Reaches h s line
    → line < b.end
unfolding governs is_header
governs-inside b s line none p q t g r = ground arith
governs-inside b s line (some k) p q t g r = ground arith

governs-outside :
    (b : Block) (s line : ℕ) (h : Option ℕ)
    → b.start ≡ s
    → b.header ≡ h
    → governs b line ≡ false
    → Reaches h s line
    → b.end ≤ line
unfolding governs is_header
governs-outside b s line none p q g r = ground arith
governs-outside b s line (some k) p q g r = ground arith

Finds-of :
    (n s line : ℕ) (h : Option ℕ) (bs : List Block)
    → Tiles n s h bs
    → Reaches h s line
    → line < n
    → (b : Block) × Finds bs line b
Finds-of n s line h [] t r l = absurd t
Finds-of n s line h (b ∷ []) t r l = elim (Bool-cases (governs b line)) [
  | inl g ↦ (b, Finds-here b [] line g tt)
  | inr g ↦ absurd (omega (arith, t.3, governs-outside b s line h t.0 t.1 g r))
]
Finds-of n s line h (b ∷ c ∷ bs) t r l = elim (Bool-cases (governs b line)) [
  | inl g ↦
      let below = governs-inside b s line h t.0 t.1 t.2 g r in
      (
        b,
        Finds-here b (c ∷ bs) line g (
            Tiles-Avoids n (b.end + 1) line (some b.end) (c ∷ bs) t.4 (omega arith)
              (unfold is_header in ground arith)),
      )
  | inr g ↦
      let above = governs-outside b s line h t.0 t.1 g r in
      let (d, f) = Finds-of n (b.end + 1) line (some b.end) (c ∷ bs) t.4 (refl, above) l in
      (d, Finds-there b d (c ∷ bs) line g f)
]

-- Every line of the file is governed by the block that `BlockAt` returns, and by no other block
-- of the file.
pub block_at-governs :
    (f : File) (line : ℕ)
    → line < length f.lines
    → (governs (block_at f line) line ≡ true)
      × All (λ b. governs b line ≡ true → b ≡ block_at f line) (blocks f)
unfolding block_at
block_at-governs f line l =
    let (b, found) =
      Finds-of (length f.lines) 0 line none (blocks f) (Tiles-blocks f) (omega arith) l in
    let e = found.found (first_block (blocks f)) in
    subst (λ x. (governs x line ≡ true) × All (λ c. governs c line ≡ true → c ≡ x) (blocks f))
      (sym e) (found.inside, found.alone)
