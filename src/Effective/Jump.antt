-- ===== src/Effective/Jump.antt =====
-- internal/effective/jump.go. The ancestors that `delete` takes away again are those of the call.
pub mod Bounds
use ssh_ui.Base.{
  ℕ, zero, suc, ◌+◌, Bool, true, false, not, ◌&&◌, ◌||◌, Option, none, some, List, [], ◌∷◌, ◌++◌,
  Bytes, codes, ◌==◌, leb, str_eq, to_lower, if◌then◌else◌, trim_space, split_byte, cut_byte,
  contains_byte,
}
use ssh_ui.Config.Line.{equal_keyword}
use ssh_ui.Config.Graph.{Graph, slices_contains}
use ssh_ui.Effective.Reading.{
  Source, Complexity, Reason, jump_invalid, jump_cycle, jump_depth_exceeded, Projection, simple,
  value,
}
use ssh_ui.Effective.Provenance.{and_then, project}
use ssh_ui.Effective.Chain.{Hop, Chain, parse_chain}

abbrev pub max_jump_depth : ℕ
max_jump_depth = 8

abbrev pub max_route_stages : ℕ
max_route_stages = 256

pub record Stage : Type 0 where
  pub order : ℕ
  pub depth : ℕ
  pub parent : Bytes
  pub hop : Hop
  pub hostname : Bytes
  pub user : Bytes
  pub port : Bytes
  pub sources : List Source
  pub complex : Bool

-- what `expand` returns, with the order of the walk behind it
pub record Route : Type 0 where
  pub order : ℕ
  pub stages : List Stage
  pub complexities : List Complexity

-- the value that the list gives, or else the one of the configuration, with its source
chosen : Bool → Bytes → Option Source → Bytes × List Source
chosen true given found = (given, [])
chosen false given none = (given, [])
chosen false given (some s) = (s.value, s ∷ [])

unfoldable pub stage_of : Bytes → ℕ → ℕ → Hop → Projection → Stage
unfolding chosen simple value
stage_of alias depth order hop p =
    let (hostname, a) = chosen false hop.host (value p (codes "hostname")) in
    let (user, b) = chosen hop.user_explicit hop.user (value p (codes "user")) in
    let (port, c) = chosen hop.port_explicit hop.port (value p (codes "port")) in
    record {
      order = order;
      depth = depth;
      parent = alias;
      hop = hop;
      hostname = hostname;
      user = user;
      port = port;
      sources = a ++ (b ++ c);
      complex = not (simple p);
    }

abbrev ends_with : ℕ → List Complexity → Route
ends_with order complexities = record { order = order; stages = []; complexities = complexities }

abbrev problem : Reason → Source → Bytes → List Complexity
problem code source detail =
    record { code = code; path = source.path; line = source.line; condition = []; detail = detail }
    ∷ []

-- `expand` one step deeper: the ancestors, the alias, the depth, the order
abbrev pub Expand : Type 0
Expand = List Bytes → Bytes → ℕ → ℕ → Option Route

unfoldable pub enter_hop : Expand → List Bytes → ℕ → ℕ → Source → Hop → Option Route
unfolding slices_contains
enter_hop deeper ancestors depth order source hop =
    elim (slices_contains ancestors (to_lower hop.host)) [
      | true ↦ some (
          ends_with order (
            problem jump_cycle source (hop.host ++ codes " already appears earlier in this route")))
      | false ↦ deeper (to_lower hop.host ∷ ancestors) hop.host (depth + 1) order
    ]

unfoldable pub joined : Stage → Route → Route → Route
joined stage nested rest = record {
  order = rest.order;
  stages = stage ∷ (nested.stages ++ rest.stages);
  complexities = nested.complexities ++ rest.complexities;
}

module _ (g : Graph) where
  -- the loop over the hops
  unfoldable pub expand_hops :
      Expand → List Bytes → Bytes → ℕ → Source → ℕ → List Hop → Option Route
  unfolding project stage_of enter_hop joined
  expand_hops deeper ancestors alias depth source order [] = some (ends_with order [])
  expand_hops deeper ancestors alias depth source order (hop ∷ hops) =
      elim (leb max_route_stages order) [
        | true ↦ some (
            ends_with order (
              problem jump_depth_exceeded source
                (codes "the jump route has more hops than this engine follows")))
        | false ↦ and_then (project g hop.host) (λ p.
            and_then (enter_hop deeper ancestors depth (order + 1) source hop) (λ nested.
              and_then (expand_hops deeper ancestors alias depth source nested.order hops)
                (λ rest. some (joined (stage_of alias depth (order + 1) hop p) nested rest))))
      ]

  unfoldable pub expand_chain :
      Option Expand → List Bytes → Bytes → ℕ → ℕ → Source → Option Chain → Option Route
  unfolding expand_hops
  expand_chain deeper ancestors alias depth order source none =
      some (ends_with order (problem jump_invalid source source.value))
  expand_chain none ancestors alias depth order source (some chain) = some (
      ends_with order (
        if chain.disabled
        then []
        else problem jump_depth_exceeded source
            (codes "the jump route is deeper than this engine follows")))
  expand_chain (some deeper) ancestors alias depth order source (some chain) = elim chain.disabled [
    | true ↦ some (ends_with order [])
    | false ↦ expand_hops deeper ancestors alias depth source order chain.hops
  ]

  unfoldable pub expand_source :
      Option Expand → List Bytes → Bytes → ℕ → ℕ → Option Source → Option Route
  unfolding expand_chain parse_chain
  expand_source deeper ancestors alias depth order none = some (ends_with order [])
  expand_source deeper ancestors alias depth order (some source) =
      expand_chain deeper ancestors alias depth order source (parse_chain source.value)

  -- on the depth that is left
  unfoldable pub expand : ℕ → Expand
  unfolding expand_source project value
  expand zero ancestors alias depth order =
      and_then (project g alias)
        (λ p. expand_source none ancestors alias depth order (value p (codes "proxyjump")))
  expand (suc left) ancestors alias depth order = and_then (project g alias) (λ p.
      expand_source (some (expand left)) ancestors alias depth order (value p (codes "proxyjump")))

  unfoldable pub expand_route : Bytes → Option Route
  unfolding expand
  expand_route alias = expand max_jump_depth (to_lower alias ∷ []) alias 0 0
