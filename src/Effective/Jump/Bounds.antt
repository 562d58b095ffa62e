-- ===== src/Effective/Jump/Bounds.antt =====
-- internal/effective/jump.go: the bounds of a route.
use ssh_ui.Base.{
  ℕ, zero, suc, ◌+◌, ◌≤◌, ◌<◌, ◌≡◌, refl, sym, subst, Bool, true, false, Option, none, some, List,
  [], ◌∷◌, ◌++◌, arith, Bytes, codes, leb, to_lower, length, length-append, All, All-append,
}
use ssh_ui.Config.Graph.{Graph, slices_contains}
use ssh_ui.Effective.Reading.{Source, Complexity, Projection, value}
use ssh_ui.Effective.Provenance.{project}
use ssh_ui.Effective.Provenance.Walks.{Ends, and_then-Ends}
use ssh_ui.Effective.Provenance.Winner.{project-total}
use ssh_ui.Effective.Jump.{
  max_jump_depth, max_route_stages, Stage, Route, stage_of, Expand, enter_hop, joined, expand_hops,
  expand_chain, expand_source, expand, expand_route,
}
use ssh_ui.Effective.Chain.{Hop, Chain, parse_chain}

-- The stages count on from a number.
pub Numbered : ℕ → List Stage → Type 0
Numbered n [] = Unit
Numbered n (s ∷ ss) = (s.order ≡ n + 1) × Numbered (n + 1) ss

Numbered-append :
    (n m : ℕ) (xs ys : List Stage)
    → m ≡ n + length xs
    → Numbered n xs
    → Numbered m ys
    → Numbered n (xs ++ ys)
unfolding Numbered
Numbered-append n m [] ys e h k = subst (λ i. Numbered i ys) (omega arith) k
Numbered-append n m (x ∷ xs) ys e h k = (h.0, Numbered-append (n + 1) m xs ys (omega arith) h.1 k)

-- What a part of the expansion leaves that began at an order: at most 256 stages so far, which
-- are those of the part, in their order, each less than eight lists deep.
pub record IsRoute (order : ℕ) (r : Route) : Type 0 where
  pub within : r.order ≤ max_route_stages
  pub counted : r.order ≡ order + length r.stages
  pub numbered : Numbered order r.stages
  pub shallow : All (λ (s : Stage). s.depth < max_jump_depth) r.stages

none_more :
    (order : ℕ) (cs : List Complexity)
    → order ≤ max_route_stages
    → IsRoute order (record { order = order; stages = []; complexities = cs })
unfolding Numbered
none_more order cs h = record { within = h; counted = omega arith; numbered = tt; shallow = tt }

joined-IsRoute :
    (order : ℕ) (s : Stage) (nested rest : Route)
    → s.order ≡ order + 1
    → s.depth < max_jump_depth
    → IsRoute (order + 1) nested
    → IsRoute nested.order rest
    → IsRoute order (joined s nested rest)
unfolding joined Numbered
joined-IsRoute order s nested rest e d a b =
    let long : length (nested.stages ++ rest.stages) ≡ length nested.stages + length rest.stages =
      length-append nested.stages rest.stages in
    let (c, e') : (nested.order ≡ order + 1 + length nested.stages)
        × (rest.order ≡ nested.order + length rest.stages) =
      (a.counted, b.counted) in
    record {
      within = b.within;
      counted = omega arith;
      numbered = (
        e,
        Numbered-append (order + 1) nested.order nested.stages rest.stages c a.numbered b.numbered,
      );
      shallow = (
        d,
        All-append (λ (s : Stage). s.depth < max_jump_depth) nested.stages rest.stages a.shallow
            b.shallow,
      );
    }

project-Ends : (g : Graph) (alias : Bytes) → Ends (λ (p : Projection). Unit {0}) (project g alias)
project-Ends g alias =
    let (p, e) = project-total g alias in subst (Ends (λ (p : Projection). Unit {0})) (sym e) tt

-- what the expansion one step deeper leaves
abbrev Deeper : ℕ → Expand → Type 0
Deeper depth deeper =
    (ancestors : List Bytes) (alias : Bytes) (order : ℕ)
    → order ≤ max_route_stages
    → Ends (IsRoute order) (deeper ancestors alias depth order)

Ends-elim :
    {A : Type 0} (P : A → Type 0) (b : Bool) (o q : Option A)
    → (b ≡ true → Ends P o)
    → (b ≡ false → Ends P q)
    → Ends P (elim b as (λ _. Option A) [ true ↦ o | false ↦ q ])
Ends-elim P true o q h k = h refl
Ends-elim P false o q h k = k refl

enter_hop-IsRoute :
    (deeper : Expand) (ancestors : List Bytes) (depth order : ℕ) (source : Source) (hop : Hop)
    → Deeper (depth + 1) deeper
    → order ≤ max_route_stages
    → Ends (IsRoute order) (enter_hop deeper ancestors depth order source hop)
unfolding enter_hop
enter_hop-IsRoute deeper ancestors depth order source hop d h =
    Ends-elim (IsRoute order) (slices_contains ancestors (to_lower hop.host)) _ _
      (λ e. none_more order _ h) (λ e. d (to_lower hop.host ∷ ancestors) hop.host order h)

-- there is a step that the depth leaves room for, or none
abbrev Below : ℕ → Option Expand → Type 0
Below depth none = Unit
Below depth (some deeper) = Deeper (depth + 1) deeper × (depth < max_jump_depth)

module _ (g : Graph) where
  expand_hops-IsRoute :
      (deeper : Expand) (ancestors : List Bytes) (alias : Bytes) (depth : ℕ) (source : Source)
      (order : ℕ) (hops : List Hop)
      → Deeper (depth + 1) deeper
      → depth < max_jump_depth
      → order ≤ max_route_stages
      → Ends (IsRoute order) (expand_hops g deeper ancestors alias depth source order hops)
  unfolding expand_hops
  expand_hops-IsRoute deeper ancestors alias depth source order [] d s h = none_more order [] h
  expand_hops-IsRoute deeper ancestors alias depth source order (hop ∷ hops) d s h =
      Ends-elim (IsRoute order) (leb max_route_stages order) _ _ (λ e. none_more order _ h)
        (λ e.
          and_then-Ends (λ (p : Projection). Unit {0}) (IsRoute order) (project g hop.host) _
            (project-Ends g hop.host)
            (λ p t.
              and_then-Ends (IsRoute (order + 1)) (IsRoute order)
                (enter_hop deeper ancestors depth (order + 1) source hop) _
                (enter_hop-IsRoute deeper ancestors depth (order + 1) source hop d (room e))
                (λ nested a.
                  and_then-Ends (IsRoute nested.order) (IsRoute order)
                    (expand_hops g deeper ancestors alias depth source nested.order hops) _
                    (expand_hops-IsRoute deeper ancestors alias depth source nested.order hops d s
                      a.within)
                    (λ rest b.
                      joined-IsRoute order (stage_of alias depth (order + 1) hop p) nested rest refl
                        s a b))))
    where
      room : leb max_route_stages order ≡ false → order + 1 ≤ max_route_stages
      room e = ground arith

  expand_chain-IsRoute :
      (deeper : Option Expand) (ancestors : List Bytes) (alias : Bytes) (depth order : ℕ)
      (source : Source) (chain : Option Chain)
      → Below depth deeper
      → order ≤ max_route_stages
      → Ends (IsRoute order) (expand_chain g deeper ancestors alias depth order source chain)
  unfolding expand_chain
  expand_chain-IsRoute deeper ancestors alias depth order source none d h = none_more order _ h
  expand_chain-IsRoute none ancestors alias depth order source (some chain) d h =
      none_more order _ h
  expand_chain-IsRoute (some deeper) ancestors alias depth order source (some chain) d h =
      Ends-elim (IsRoute order) chain.disabled _ _ (λ e. none_more order [] h)
        (λ e. expand_hops-IsRoute deeper ancestors alias depth source order chain.hops d.0 d.1 h)

  expand_source-IsRoute :
      (deeper : Option Expand) (ancestors : List Bytes) (alias : Bytes) (depth order : ℕ)
      (source : Option Source)
      → Below depth deeper
      → order ≤ max_route_stages
      → Ends (IsRoute order) (expand_source g deeper ancestors alias depth order source)
  unfolding expand_source
  expand_source-IsRoute deeper ancestors alias depth order none d h = none_more order [] h
  expand_source-IsRoute deeper ancestors alias depth order (some source) d h =
      expand_chain-IsRoute deeper ancestors alias depth order source (parse_chain source.value) d h

  expand-IsRoute :
      (left : ℕ) (ancestors : List Bytes) (alias : Bytes) (depth order : ℕ)
      → depth + left ≡ max_jump_depth
      → order ≤ max_route_stages
      → Ends (IsRoute order) (expand g left ancestors alias depth order)
  unfolding expand
  expand-IsRoute zero ancestors alias depth order e h =
      and_then-Ends (λ (p : Projection). Unit {0}) (IsRoute order) (project g alias) _
        (project-Ends g alias)
        (λ p t.
          expand_source-IsRoute none ancestors alias depth order (value p (codes "proxyjump")) tt h)
  expand-IsRoute (suc left) ancestors alias depth order e h =
      let below : Below depth (some (expand g left)) =
        (λ a b n k. expand-IsRoute left a b (depth + 1) n (omega arith) k, omega arith) in
      and_then-Ends (λ (p : Projection). Unit {0}) (IsRoute order) (project g alias) _
        (project-Ends g alias)
        (λ p t.
          expand_source-IsRoute (some (expand g left)) ancestors alias depth order
            (value p (codes "proxyjump")) below h)

  -- The expansion of a route ends for every graph and alias, with at most 256 stages, which are
  -- numbered from 1 in their order and stand less than eight lists deep.
  pub expand_route-IsRoute :
      (alias : Bytes) → (r : Route) × (expand_route g alias ≡ some r) × IsRoute 0 r
  unfolding expand_route
  expand_route-IsRoute alias =
      go _ (expand-IsRoute max_jump_depth (to_lower alias ∷ []) alias 0 0 refl (omega arith))
    where
      go : (o : Option Route) → Ends (IsRoute 0) o → (r : Route) × (o ≡ some r) × IsRoute 0 r
      go none h = absurd h
      go (some r) h = (r, refl, h)
