-- ===== src/Effective/Provenance/Walks.antt =====
-- internal/effective/provenance.go: the walk in load order ends, and keeps what its two closures keep.
use ssh_ui.Base.{
  ℕ, zero, suc, ◌+◌, ◌<◌, ◌≡◌, ◌≢◌, refl, Bool, true, false, Option, none, some, List, [], ◌∷◌,
  arith, Bytes, codes, ◌==◌, lookup,
}
use ssh_ui.Config.Line.{Line, LineKind, blank, comment, directive, unstructured, equal_keyword}
use ssh_ui.Config.Parse.{File}
use ssh_ui.Config.Block.{Block, blocks}
use ssh_ui.Config.Graph.{Edge, Node, Graph, slices_contains}
use ssh_ui.Effective.Reading.{Reading, enter_block, take_directive}
use ssh_ui.Effective.Provenance.Unvisited.{unvisited, unvisited-visit}
use ssh_ui.Effective.Provenance.{
  and_then, next_block, Descend, visit_all, visit_edges, read_directive, read_block_line,
  read_lines, read_blocks, read_node_file, read_node, walk_load_order,
}

-- there is a result, and it has a property
abbrev pub Ends : {A : Type 0} → (A → Type 0) → Option A → Type 0
Ends P none = ⊥
Ends P (some a) = P a

pub and_then-Ends :
    {A : Type 0} {B : Type 0} (P : A → Type 0) (Q : B → Type 0) (o : Option A) (f : A → Option B)
    → Ends P o
    → ((a : A) → P a → Ends Q (f a))
    → Ends Q (and_then o f)
and_then-Ends P Q none f h k = absurd h
and_then-Ends P Q (some a) f h k = k a h

-- What both closures keep.
pub record IsKept (alias : Bytes) (P : Reading → Type 0) : Type 0 where
  pub entered :
      (path : Bytes) (f : File) (b : Block) (s : Reading) → P s → P (enter_block alias path f b s)
  pub taken :
      (path : Bytes) (index : ℕ) (l : Line) (s : Reading) → P s → P (take_directive path index l s)

module _ (alias : Bytes) (P : Reading → Type 0) (kept : IsKept alias P) where
  abbrev Descends : Descend → Type 0
  Descends d = (match : Bytes) (s : Reading) → P s → Ends P (d match s)

  visit_all-Ends :
      (d : Descend) (ms : List Bytes) (s : Reading) → Descends d → P s → Ends P (visit_all d ms s)
  unfolding visit_all
  visit_all-Ends d [] s e h = h
  visit_all-Ends d (m ∷ ms) s e h =
      and_then-Ends P P (d m s) (visit_all d ms) (e m s h) (λ t k. visit_all-Ends d ms t e k)

  visit_edges-Ends :
      (d : Descend) (line : ℕ) (es : List Edge) (s : Reading)
      → Descends d
      → P s
      → Ends P (visit_edges d line es s)
  unfolding visit_edges
  visit_edges-Ends d line [] s e h = h
  visit_edges-Ends d line (x ∷ es) s e h =
      let deeper =
        and_then-Ends P P (visit_all d x.matches s) (visit_edges d line es)
          (visit_all-Ends d x.matches s e h) (λ t k. visit_edges-Ends d line es t e k) in
      let past = visit_edges-Ends d line es s e h in
      elim (x.line == line)
        as (λ b. Ends P (elim b as (λ _. Option Reading) [
          | true ↦ and_then (visit_all d x.matches s) (visit_edges d line es)
          | false ↦ visit_edges d line es s
        ])) [ true ↦ deeper | false ↦ past ]

  read_directive-Ends :
      (d : Descend) (n : Node) (path : Bytes) (index : ℕ) (l : Line) (kind : LineKind) (s : Reading)
      → Descends d
      → P s
      → Ends P (read_directive d n path index l kind s)
  unfolding read_directive
  read_directive-Ends d n path index l blank s e h = h
  read_directive-Ends d n path index l comment s e h = h
  read_directive-Ends d n path index l unstructured s e h = h
  read_directive-Ends d n path index l directive s e h =
      let included = visit_edges-Ends d (index + 1) n.includes s e h in
      let read = kept.taken path index l s h in
      elim (equal_keyword l.keyword (codes "Include"))
        as (λ b. Ends P (elim b as (λ _. Option Reading) [
          | true ↦ visit_edges d (index + 1) n.includes s
          | false ↦ some (take_directive path index l s)
        ])) [ true ↦ included | false ↦ read ]

  read_block_line-Ends :
      (d : Descend) (n : Node) (path : Bytes) (f : File) (index : ℕ) (l : Line) (bs : List Block)
      (next : Option (Block × List Block)) (s : Reading)
      → Descends d
      → P s
      → Ends
          (λ (step : List Block × Reading). P step.1)
          (read_block_line d alias n path f index l bs next s)
  unfolding read_block_line
  read_block_line-Ends d n path f index l bs (some (b, rest)) s e h = kept.entered path f b s h
  read_block_line-Ends d n path f index l bs none s e h =
      and_then-Ends P (λ (step : List Block × Reading). P step.1)
        (read_directive d n path index l l.kind s) (λ t. some (bs, t))
        (read_directive-Ends d n path index l l.kind s e h) (λ t k. k)

  read_lines-Ends :
      (d : Descend) (n : Node) (path : Bytes) (f : File) (index : ℕ) (bs : List Block)
      (ls : List Line) (s : Reading)
      → Descends d
      → P s
      → Ends P (read_lines d alias n path f index bs ls s)
  unfolding read_lines
  read_lines-Ends d n path f index bs [] s e h = h
  read_lines-Ends d n path f index bs (l ∷ ls) s e h =
      and_then-Ends (λ (step : List Block × Reading). P step.1) P
        (read_block_line d alias n path f index l bs (next_block bs index) s)
        (λ step. read_lines d alias n path f (index + 1) step.0 ls step.1)
        (read_block_line-Ends d n path f index l bs (next_block bs index) s e h)
        (λ step k. read_lines-Ends d n path f (index + 1) step.0 ls step.1 e k)

  read_blocks-Ends :
      (d : Descend) (n : Node) (path : Bytes) (f : File) (bs : List Block) (s : Reading)
      → Descends d
      → P s
      → Ends P (read_blocks d alias n path f bs s)
  unfolding read_blocks
  read_blocks-Ends d n path f [] s e h = h
  read_blocks-Ends d n path f (b ∷ bs) s e h =
      read_lines-Ends d n path f 0 bs f.lines _ e (kept.entered path f b s h)

  read_node-Ends :
      (d : Descend) (path : Bytes) (n : Option Node) (s : Reading)
      → (n ≢ none → Descends d)
      → P s
      → Ends P (read_node d alias path n s)
  unfolding read_node read_node_file
  read_node-Ends d path none s e h = h
  read_node-Ends d path (some n) s e h = of_file n.file (e (λ q. cc))
    where
      of_file : (f : Option File) → Descends d → Ends P (read_node_file d alias n path f s)
      of_file none k = h
      of_file (some f) k = read_blocks-Ends d n path f (blocks f) s k h

  -- With more fuel than there are files to visit, the walk ends and keeps the property.
  pub walk_load_order-Ends :
      (g : Graph) (fuel : ℕ) (chain : List Bytes) (path : Bytes) (s : Reading)
      → unvisited chain g.nodes < fuel
      → P s
      → Ends P (walk_load_order g alias fuel chain path s)
  unfolding walk_load_order
  walk_load_order-Ends g zero chain path s u h = absurd (omega arith)
  walk_load_order-Ends g (suc fuel) chain path s u h =
      go (slices_contains chain path) refl
        (λ k t q. walk_load_order-Ends g fuel (path ∷ chain) k t q)
    where
      step : Option Node → Option Reading
      step n = read_node (walk_load_order g alias fuel (path ∷ chain)) alias path n s

      deeper :
          (n : Option Node)
          → lookup path g.nodes ≡ n
          → slices_contains chain path ≡ false
          → n ≢ none
          → unvisited (path ∷ chain) g.nodes < fuel
      deeper none q k ne = absurd (ne refl)
      deeper (some n) q k ne = let fewer = unvisited-visit path chain g.nodes n q k in omega arith

      go :
          (b : Bool)
          → slices_contains chain path ≡ b
          → ((match : Bytes) (t : Reading)
              → unvisited (path ∷ chain) g.nodes < fuel
              → P t
              → Ends P (walk_load_order g alias fuel (path ∷ chain) match t))
          → Ends P (elim b as (λ _. Option Reading) [
            | true ↦ some s
            | false ↦ step (lookup path g.nodes)
          ])
      go true q ih = h
      go false q ih =
          read_node-Ends (walk_load_order g alias fuel (path ∷ chain)) path (lookup path g.nodes) s
            (λ ne match t k. ih match t (deeper (lookup path g.nodes) refl q ne) k) h
