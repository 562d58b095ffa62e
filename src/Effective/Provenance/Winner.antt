-- ===== src/Effective/Provenance/Winner.antt =====
-- internal/effective/provenance.go: the value of a keyword is the first that is read.
use ssh_ui.Base.{
  ℕ, ◌+◌, ◌≤◌, ◌≡◌, refl, sym, ap, subst, ◌∙◌, Bool, true, false, not, ◌||◌, ◌&&◌, Option, none,
  some, List, [], ◌∷◌, ◌++◌, arith, Bytes, str_eq, str_eq_iff, to_lower, Bool-cases, inl, inr,
  if◌then◌else◌, length,
}
use ssh_ui.Config.Line.{Line}
use ssh_ui.Config.Block.{Block, BlockKind}
use ssh_ui.Config.Graph.{Graph, slices_contains}
use ssh_ui.Effective.Reading.{
  Source, Projection, Reading, value_in, value, enter_kind, enter_block, block_applies,
  take_directive, argument_text,
}
use ssh_ui.Effective.Provenance.{and_then, unread, walk_load_order, all_unresolved, project}
use ssh_ui.Effective.Provenance.Unvisited.{unvisited, unvisited-length}
use ssh_ui.Effective.Provenance.Walks.{Ends, IsKept, walk_load_order-Ends}

-- the first source that sets a keyword
pub first_with : Bytes → List Source → Option Source
first_with wanted [] = none
first_with wanted (s ∷ ss) =
    let rest = first_with wanted ss in if str_eq (to_lower s.keyword) wanted then some s else rest

pub is_some : Option Source → Bool
is_some none = false
is_some (some s) = true

or_else : Option Source → Option Source → Option Source
or_else none o = o
or_else (some s) o = some s

if-or_else :
    (b : Bool) (s : Source) (o p : Option Source)
    → (if b then some s else or_else o p) ≡ or_else (if b then some s else o) p
unfolding or_else
if-or_else true s o p = refl
if-or_else false s o p = refl

value_in-append :
    (k : Bytes) (xs ys : List Source)
    → value_in k (xs ++ ys) ≡ or_else (value_in k xs) (value_in k ys)
unfolding value_in or_else
value_in-append k [] ys = refl
value_in-append k (x ∷ xs) ys =
    ap (λ o. if x.winner && str_eq (to_lower x.keyword) k then some x else o)
      (value_in-append k xs ys)
    ∙ if-or_else (x.winner && str_eq (to_lower x.keyword) k) x (value_in k xs) (value_in k ys)

first_with-append :
    (k : Bytes) (xs ys : List Source)
    → first_with k (xs ++ ys) ≡ or_else (first_with k xs) (first_with k ys)
unfolding first_with or_else
first_with-append k [] ys = refl
first_with-append k (x ∷ xs) ys =
    ap (λ o. if str_eq (to_lower x.keyword) k then some x else o) (first_with-append k xs ys)
    ∙ if-or_else (str_eq (to_lower x.keyword) k) x (first_with k xs) (first_with k ys)

-- The claimed keywords are those of the sources, and the winner is the first.
abbrev pub FirstWins : Reading → Type 0
FirstWins s =
    (k : Bytes)
    → (slices_contains s.claimed k ≡ is_some (first_with k s.sources))
      × (value_in k s.sources ≡ first_with k s.sources)

-- one more source, which wins unless its keyword is claimed
one_more :
    (k : Bytes) (claimed : List Bytes) (xs : List Source) (y : Source)
    → y.winner ≡ not (slices_contains claimed (to_lower y.keyword))
    → slices_contains claimed k ≡ is_some (first_with k xs)
    → value_in k xs ≡ first_with k xs
    → (slices_contains (to_lower y.keyword ∷ claimed) k ≡ is_some (first_with k (xs ++ (y ∷ []))))
      × (value_in k (xs ++ (y ∷ [])) ≡ first_with k (xs ++ (y ∷ [])))
unfolding slices_contains first_with value_in is_some or_else
one_more k claimed xs y w c v =
    let f = first_with-append k xs (y ∷ []) in
    let g = value_in-append k xs (y ∷ []) ∙ ap (λ o. or_else o (value_in k (y ∷ []))) v in
    let (a, b) = go (first_with k xs) c in (a ∙ ap is_some (sym f), g ∙ b ∙ sym f)
  where
    either_way : (b c : Bool) → c ≡ true → (b || c) ≡ true
    either_way b c e = ground arith

    no_source : (b : Bool) → (if b && false then some y else none) ≡ none
    no_source true = refl
    no_source false = refl

    won : to_lower y.keyword ≡ k → slices_contains claimed k ≡ false → y.winner ≡ true
    won q e = w ∙ ap not (subst (λ j. slices_contains claimed j ≡ false) (sym q) e)

    go :
        (o : Option Source)
        → slices_contains claimed k ≡ is_some o
        → ((str_eq (to_lower y.keyword) k || slices_contains claimed k)
            ≡ is_some (or_else o (first_with k (y ∷ []))))
          × (or_else o (value_in k (y ∷ [])) ≡ or_else o (first_with k (y ∷ [])))
    go (some z) e = (either_way (str_eq (to_lower y.keyword) k) _ e, refl)
    go none e = elim (Bool-cases (str_eq (to_lower y.keyword) k)) [
      | inl same ↦ rw (same, won ((str_eq_iff (to_lower y.keyword) k).0 same) e) (refl, refl)
      | inr other ↦ rw other (e, no_source y.winner)
    ]

-- a change of the state that leaves the sources and what they claim
kept : (alias : Bytes) → IsKept alias FirstWins
unfolding enter_block enter_kind take_directive
kept alias = record {
  entered = λ path f b s h. of_kind b.kind (block_applies b alias).1 path b _ h;
  taken = λ path index l s h. of_directive path index l s h s.applies;
}
  where
    of_kind :
        (kind : BlockKind) (applies : Bool) (path : Bytes) (b : Block) (s : Reading)
        → FirstWins s
        → FirstWins (enter_kind kind applies path b s)
    of_kind BlockKind.global applies path b s h = h
    of_kind BlockKind.match applies path b s h = h
    of_kind BlockKind.host true path b s h = h
    of_kind BlockKind.host false path b s h = h

    of_directive :
        (path : Bytes) (index : ℕ) (l : Line) (s : Reading)
        → FirstWins s
        → (b : Bool)
        → FirstWins (
            if not b then s else record s {
              sources =
                  s.sources
                  ++ (record {
                    keyword = l.keyword;
                    value = argument_text l;
                    path = path;
                    line = index + 1;
                    condition = s.condition;
                    kind = s.kind;
                    winner = not (slices_contains s.claimed (to_lower l.keyword));
                  }
                      ∷ []);
              claimed = to_lower l.keyword ∷ s.claimed;
            })
    of_directive path index l s h false = h
    of_directive path index l s h true = λ k. one_more k s.claimed s.sources _ refl (h k).0 (h k).1

read :
    (g : Graph) (alias : Bytes)
    → Ends FirstWins (walk_load_order g alias (length g.nodes + 1) [] g.root unread)
read g alias =
    let few : unvisited [] g.nodes ≤ length g.nodes = unvisited-length g.nodes in
    walk_load_order-Ends alias FirstWins (kept alias) g (length g.nodes + 1) [] g.root unread
      (omega arith) (λ k. unfold slices_contains first_with is_some value_in in (refl, refl))

project_of : Graph → Bytes → Option Reading → Option Projection
project_of g alias o = and_then o (λ s. some (record {
  alias = alias;
  sources = s.sources;
  complexities = s.complexities ++ all_unresolved g.diagnostics;
}))

-- The walk of `Project` has a result for every graph, also for one whose includes go round.
pub project-total : (g : Graph) (alias : Bytes) → (p : Projection) × (project g alias ≡ some p)
unfolding project project_of
project-total g alias = go _ (read g alias)
  where
    go :
        (o : Option Reading) → Ends FirstWins o → (p : Projection) × (project_of g alias o ≡ some p)
    go none h = absurd h
    go (some s) h = (_, refl)
