-- ===== src/Effective/Provenance/Order.antt =====
-- internal/effective/provenance.go: the order in which the lines of the files are loaded, as a list,
-- and the walk, which reads that list.
use ssh_ui.Base.{
  ℕ, zero, suc, ◌+◌, ◌≡◌, refl, sym, ap, ◌∙◌, true, false, Option, none, some, some_eq, List, [],
  ◌∷◌, ◌++◌, Bytes, codes, ◌==◌, if◌then◌else◌, length, lookup,
}
use ssh_ui.Config.Line.{Line, LineKind, blank, comment, directive, unstructured, equal_keyword}
use ssh_ui.Config.Parse.{File}
use ssh_ui.Config.Block.{Block, blocks}
use ssh_ui.Config.Graph.{Edge, Node, Graph, slices_contains}
use ssh_ui.Effective.Reading.{Source, Reading, enter_block, take_directive}
use ssh_ui.Effective.Provenance.{
  and_then, next_block, Descend, visit_all, visit_edges, read_directive, read_block_line,
  read_lines, read_blocks, read_node_file, read_node, walk_load_order, unread,
}

-- What is loaded: the header of a block, or a directive that is no header and no Include.
pub data Event : Type 0 where
  opened : Bytes → File → Block → Event
  loaded : Bytes → ℕ → Line → Event

-- what the files that a line includes load
abbrev Below : Type 0
Below = Bytes → List Event

unfoldable pub all_events : Below → List Bytes → List Event
all_events d [] = []
all_events d (m ∷ ms) = d m ++ all_events d ms

-- the files of each edge of the line, in the order of the edges and of their matches
unfoldable pub edge_events : Below → ℕ → List Edge → List Event
unfolding all_events
edge_events d line [] = []
edge_events d line (e ∷ es) =
    let rest = edge_events d line es in
    if e.line == line then all_events d e.matches ++ rest else rest

unfoldable pub directive_events : Below → Node → Bytes → ℕ → Line → LineKind → List Event
unfolding edge_events
directive_events d n path index l directive =
    if equal_keyword l.keyword (codes "Include")
    then edge_events d (index + 1) n.includes
    else loaded path index l ∷ []
directive_events d n path index l _ = []

-- a header line opens the next block; an Include line stands for the files that it includes
unfoldable pub lines_events : Below → Node → Bytes → File → ℕ → List Block → List Line → List Event
unfolding directive_events
lines_events d n path f index bs [] = []
lines_events d n path f index bs (l ∷ ls) = elim (next_block bs index) [
  | none ↦ directive_events d n path index l l.kind ++ lines_events d n path f (index + 1) bs ls
  | some (b, rest) ↦ opened path f b ∷ lines_events d n path f (index + 1) rest ls
]

unfoldable pub file_events : Below → Node → Bytes → File → List Block → List Event
unfolding lines_events
file_events d n path f [] = []
file_events d n path f (b ∷ bs) = opened path f b ∷ lines_events d n path f 0 bs f.lines

unfoldable pub node_events : Below → Node → Bytes → Option File → List Event
unfolding file_events
node_events d n path none = []
node_events d n path (some f) = file_events d n path f (blocks f)

unfoldable pub path_events : Below → Bytes → Option Node → List Event
unfolding node_events
path_events d path none = []
path_events d path (some n) = node_events d n path n.file

-- What a file loads, and the files that it includes in their places; a file that is being loaded
-- is not loaded again.
unfoldable pub load_order : Graph → ℕ → List Bytes → Below
unfolding path_events
load_order g zero chain path = []
load_order g (suc fuel) chain path =
    let events = path_events (load_order g fuel (path ∷ chain)) path (lookup path g.nodes) in
    if slices_contains chain path then [] else events

module _ (alias : Bytes) where
  unfoldable pub replay : List Event → Reading → Reading
  replay [] s = s
  replay (opened path f b ∷ es) s = replay es (enter_block alias path f b s)
  replay (loaded path index l ∷ es) s = replay es (take_directive path index l s)

  replay-append : (es fs : List Event) (s : Reading) → replay (es ++ fs) s ≡ replay fs (replay es s)
  unfolding replay
  replay-append [] fs s = refl
  replay-append (opened path f b ∷ es) fs s = replay-append es fs (enter_block alias path f b s)
  replay-append (loaded path index l ∷ es) fs s =
      replay-append es fs (take_directive path index l s)

  -- A walk that ends has read the list.
  abbrev Reads : List Event → Reading → Option Reading → Type 0
  Reads es s o = (t : Reading) → o ≡ some t → t ≡ replay es s

  Reads-then :
      (es fs : List Event) (s : Reading) (o : Option Reading) (k : Reading → Option Reading)
      → Reads es s o
      → ((x : Reading) → Reads fs x (k x))
      → Reads (es ++ fs) s (and_then o k)
  Reads-then es fs s none k h j t e = absurd (cc)
  Reads-then es fs s (some x) k h j t e =
      j x t e ∙ ap (replay fs) (h x refl) ∙ sym (replay-append es fs s)

  Reads-nothing : (s : Reading) → Reads [] s (some s)
  unfolding replay
  Reads-nothing s t e = sym (some_eq e)

  abbrev Descends : Below → Descend → Type 0
  Descends o d = (match : Bytes) (s : Reading) → Reads (o match) s (d match s)

  visit_all-Reads :
      (o : Below) (d : Descend) (ms : List Bytes) (s : Reading)
      → Descends o d
      → Reads (all_events o ms) s (visit_all d ms s)
  unfolding visit_all all_events
  visit_all-Reads o d [] s h = Reads-nothing s
  visit_all-Reads o d (m ∷ ms) s h =
      Reads-then (o m) (all_events o ms) s (d m s) (visit_all d ms) (h m s)
        (λ x. visit_all-Reads o d ms x h)

  visit_edges-Reads :
      (o : Below) (d : Descend) (line : ℕ) (es : List Edge) (s : Reading)
      → Descends o d
      → Reads (edge_events o line es) s (visit_edges d line es s)
  unfolding visit_edges edge_events
  visit_edges-Reads o d line [] s h = Reads-nothing s
  visit_edges-Reads o d line (x ∷ es) s h =
      let deeper =
        Reads-then (all_events o x.matches) (edge_events o line es) s (visit_all d x.matches s)
          (visit_edges d line es) (visit_all-Reads o d x.matches s h)
          (λ y. visit_edges-Reads o d line es y h) in
      let past = visit_edges-Reads o d line es s h in
      elim (x.line == line)
        as (λ b.
          Reads
            (if b then all_events o x.matches ++ edge_events o line es else edge_events o line es) s
            (elim b as (λ _. Option Reading) [
              | true ↦ and_then (visit_all d x.matches s) (visit_edges d line es)
              | false ↦ visit_edges d line es s
            ])) [ true ↦ deeper | false ↦ past ]

  read_directive-Reads :
      (o : Below) (d : Descend) (n : Node) (path : Bytes) (index : ℕ) (l : Line) (kind : LineKind)
      (s : Reading)
      → Descends o d
      → Reads (directive_events o n path index l kind) s (read_directive d n path index l kind s)
  unfolding read_directive directive_events replay
  read_directive-Reads o d n path index l blank s h = Reads-nothing s
  read_directive-Reads o d n path index l comment s h = Reads-nothing s
  read_directive-Reads o d n path index l unstructured s h = Reads-nothing s
  read_directive-Reads o d n path index l directive s h =
      let included = visit_edges-Reads o d (index + 1) n.includes s h in
      elim (equal_keyword l.keyword (codes "Include"))
        as (λ b.
          Reads (if b then edge_events o (index + 1) n.includes else loaded path index l ∷ []) s
            (elim b as (λ _. Option Reading) [
              | true ↦ visit_edges d (index + 1) n.includes s
              | false ↦ some (take_directive path index l s)
            ])) [ true ↦ included | false ↦ λ t e. sym (some_eq e) ]

  read_lines-Reads :
      (o : Below) (d : Descend) (n : Node) (path : Bytes) (f : File) (index : ℕ) (bs : List Block)
      (ls : List Line) (s : Reading)
      → Descends o d
      → Reads (lines_events o n path f index bs ls) s (read_lines d alias n path f index bs ls s)
  unfolding read_lines lines_events read_block_line replay
  read_lines-Reads o d n path f index bs [] s h = Reads-nothing s
  read_lines-Reads o d n path f index bs (l ∷ ls) s h =
      go (next_block bs index) (λ cs x. read_lines-Reads o d n path f (index + 1) cs ls x h)
    where
      plain :
          (q : Option Reading)
          → Reads (directive_events o n path index l l.kind) s q
          → ((cs : List Block) (x : Reading)
              → Reads
                  (lines_events o n path f (index + 1) cs ls)
                  x
                  (read_lines d alias n path f (index + 1) cs ls x))
          → Reads
              (directive_events o n path index l l.kind
                ++ lines_events o n path f (index + 1) bs ls)
              s
              (and_then {A = List Block × Reading}
                (and_then q (λ t. some (bs, t)))
                (λ step. read_lines d alias n path f (index + 1) step.0 ls step.1))
      plain none a more t e = absurd (cc)
      plain (some x) a more t e =
          more bs x t e
          ∙ ap (replay (lines_events o n path f (index + 1) bs ls)) (a x refl)
          ∙ sym (
              replay-append (directive_events o n path index l l.kind)
                (lines_events o n path f (index + 1) bs ls) s)

      go :
          (next : Option (Block × List Block))
          → ((cs : List Block) (x : Reading)
              → Reads
                  (lines_events o n path f (index + 1) cs ls)
                  x
                  (read_lines d alias n path f (index + 1) cs ls x))
          → Reads
              (elim next as (λ _. List Event) [
                | none ↦
                    directive_events o n path index l l.kind
                    ++ lines_events o n path f (index + 1) bs ls
                | some (b, rest) ↦ opened path f b ∷ lines_events o n path f (index + 1) rest ls
              ])
              s
              (and_then
                (read_block_line d alias n path f index l bs next s)
                (λ step. read_lines d alias n path f (index + 1) step.0 ls step.1))
      go none more =
          plain (read_directive d n path index l l.kind s)
            (read_directive-Reads o d n path index l l.kind s h) more
      go (some (b, rest)) more = more rest (enter_block alias path f b s)

  read_node-Reads :
      (o : Below) (d : Descend) (path : Bytes) (n : Option Node) (s : Reading)
      → Descends o d
      → Reads (path_events o path n) s (read_node d alias path n s)
  unfolding read_node read_node_file read_blocks path_events node_events file_events replay
  read_node-Reads o d path none s h = Reads-nothing s
  read_node-Reads o d path (some n) s h = of_file n.file
    where
      of_blocks :
          (f : File) (bs : List Block)
          → Reads (file_events o n path f bs) s (read_blocks d alias n path f bs s)
      of_blocks f [] = Reads-nothing s
      of_blocks f (b ∷ bs) =
          read_lines-Reads o d n path f 0 bs f.lines (enter_block alias path f b s) h

      of_file :
          (f : Option File) → Reads (node_events o n path f) s (read_node_file d alias n path f s)
      of_file none = Reads-nothing s
      of_file (some f) = of_blocks f (blocks f)

  -- The walk reads what is loaded, in its order.
  pub walk_load_order-Reads :
      (g : Graph) (fuel : ℕ) (chain : List Bytes) (path : Bytes) (s : Reading)
      → Reads (load_order g fuel chain path) s (walk_load_order g alias fuel chain path s)
  unfolding walk_load_order load_order
  walk_load_order-Reads g zero chain path s = λ t e. absurd (cc)
  walk_load_order-Reads g (suc fuel) chain path s =
      let deeper =
        read_node-Reads (load_order g fuel (path ∷ chain))
          (walk_load_order g alias fuel (path ∷ chain)) path (lookup path g.nodes) s
          (λ match x. walk_load_order-Reads g fuel (path ∷ chain) match x) in
      elim (slices_contains chain path)
        as (λ b.
          Reads
            (if b
              then []
              else path_events (load_order g fuel (path ∷ chain)) path (lookup path g.nodes))
            s
            (elim b as (λ _. Option Reading) [
              | true ↦ some s
              | false ↦
                  read_node (walk_load_order g alias fuel (path ∷ chain)) alias path
                    (lookup path g.nodes) s
            ])) [ true ↦ Reads-nothing s | false ↦ deeper ]

-- The directives that are loaded for an alias, in their order.
unfoldable pub sources_in_order : Graph → Bytes → List Source
unfolding load_order replay
sources_in_order g alias =
    (replay alias (load_order g (length g.nodes + 1) [] g.root) unread).sources
