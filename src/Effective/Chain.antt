-- ===== src/Effective/Chain.antt =====
-- internal/effective/jump.go: `ParseChain`, the list of hops that a value of ProxyJump names.
use ssh_ui.Base.{
  ℕ, Bool, true, false, ◌||◌, Option, none, some, List, [], ◌∷◌, Bytes, codes, ◌==◌, str_eq,
  if◌then◌else◌, trim_space, split_byte, cut_byte, contains_byte,
}
use ssh_ui.Config.Line.{equal_keyword}
use ssh_ui.Effective.Provenance.{and_then}

abbrev default_jump_port : Bytes
default_jump_port = codes "22"

pub record Hop : Type 0 where
  pub raw : Bytes
  pub user : Bytes
  pub host : Bytes
  pub port : Bytes
  pub user_explicit : Bool
  pub port_explicit : Bool

pub record Chain : Type 0 where
  pub raw : Bytes
  pub disabled : Bool
  pub hops : List Hop

onto_last : ℕ → Bool → Bytes → Option (Bytes × Bytes) → Option (Bytes × Bytes)
onto_last c here cs (some (before, behind)) = some (c ∷ before, behind)
onto_last c true cs none = some ([], cs)
onto_last c false cs none = none

-- the text before and behind the last of a byte, as `strings.LastIndex` finds it
unfoldable pub cut_last : ℕ → Bytes → Option (Bytes × Bytes)
unfolding onto_last
cut_last b [] = none
cut_last b (c ∷ cs) = let rest = cut_last b cs in onto_last c (c == b) cs rest

-- `none` is `ErrInvalidJump`
filled : Hop → Option Hop
filled hop = if str_eq hop.host [] || str_eq hop.port [] then none else some hop

-- behind the closing bracket
bracketed : Hop → Option (Bytes × Bytes) → Option Hop
bracketed hop (some (b ∷ host, [])) = some (record hop { host = host })
bracketed hop (some (b ∷ host, c ∷ port)) =
    if c == b':' then some (record hop { host = host; port = port; port_explicit = true }) else none
bracketed hop _ = none

-- one colon ends the host
coloned : Hop → Bytes → Option (Bytes × Bytes) → Option Hop
coloned hop destination none = some (record hop { host = destination })
coloned hop destination (some (host, port)) = some (
    if contains_byte b':' host
    then record hop { host = destination }
    else record hop { host = host; port = port; port_explicit = true })

at_destination : Hop → Bytes → Option Hop
unfolding bracketed coloned cut_last cut_byte
at_destination hop [] = coloned hop [] (cut_last b':' [])
at_destination hop (c ∷ cs) =
    if c == b'['
    then bracketed hop (cut_byte b']' (c ∷ cs))
    else coloned hop (c ∷ cs) (cut_last b':' (c ∷ cs))

with_user : Hop → Bytes → Option (Bytes × Bytes) → Option Hop
unfolding at_destination
with_user hop element none = at_destination hop element
with_user hop element (some (user, destination)) =
    if str_eq user [] || str_eq destination []
    then none
    else at_destination (record hop { user = user; user_explicit = true }) destination

unfoldable pub parse_hop : Bytes → Option Hop
unfolding with_user cut_last filled
parse_hop [] = none
parse_hop element =
    and_then
      (with_user
        (record {
          raw = element;
          user = [];
          host = [];
          port = default_jump_port;
          user_explicit = false;
          port_explicit = false;
        })
        element (cut_last b'@' element))
      filled

-- the loop of `ParseChain`
unfoldable pub parse_hops : List Bytes → Option (List Hop)
unfolding parse_hop trim_space
parse_hops [] = some []
parse_hops (element ∷ rest) =
    and_then (parse_hop (trim_space element))
      (λ hop. and_then (parse_hops rest) (λ hops. some (hop ∷ hops)))

unfoldable pub parse_chain : Bytes → Option Chain
unfolding parse_hops trim_space split_byte equal_keyword
parse_chain raw =
    let trimmed = trim_space raw in
    if str_eq trimmed []
    then some (record { raw = raw; disabled = false; hops = [] })
    else if equal_keyword trimmed (codes "none")
    then some (record { raw = raw; disabled = true; hops = [] })
    else and_then (parse_hops (split_byte b',' trimmed))
        (λ hops. some (record { raw = raw; disabled = false; hops = hops }))
