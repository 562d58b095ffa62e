-- ===== src/Config/Token.antt =====
-- internal/config/token.go: one argument of a directive, and the split of the argument part.
pub mod Quote
pub mod Scan
use ssh_ui.Base.{
  ℕ, zero, suc, ◌≡◌, Bool, true, false, not, ◌&&◌, ◌||◌, Option, none, some, List, [], ◌∷◌, ◌++◌,
  Bytes, codes, contains_any, has_prefix, cut_byte, take_while, drop_while, ◌==◌, if◌then◌else◌,
  length,
}

pub record Argument : Type 0 where
  pub lead : Bytes
  pub raw : Bytes
  pub value : Bytes

unfoldable pub is_space : ℕ → Bool
is_space c = c == b' ' || c == b'\t'

abbrev pub unquotable : Bytes
unquotable = 10 ∷ 13 ∷ 0 ∷ 34 ∷ []

-- a value that has to be written in quotation marks
unfoldable pub needs_quotes : Bytes → Bool
needs_quotes [] = true
needs_quotes value = contains_any (codes " \t") value || has_prefix value (codes "#")

abbrev pub quoted : Bytes → Bytes
quoted value = b'"' ∷ (value ++ (b'"' ∷ []))

-- `none` is ErrUnquotableValue
unfoldable pub render_argument : Bytes → Bytes → Option Argument
unfolding needs_quotes
render_argument lead value =
    if contains_any unquotable value
    then none
    else if needs_quotes value
    then some (record { lead = lead; raw = quoted value; value = value })
    else some (record { lead = lead; raw = value; value = value })

-- What `splitArguments` returns: the arguments with the trailing space, or `ok == false`.
-- `unfinished` is the model's own: the fuel of the loop ran out.
pub data Split : Type 0 where
  arguments : List Argument → Bytes → Split
  refused : Split
  unfinished : Split

pub prepend : Argument → Split → Split
prepend a (arguments xs trailing) = arguments (a ∷ xs) trailing
prepend a refused = refused
prepend a unfinished = unfinished

-- One argument at the head of the text: it and what follows, or `ok == false`.
pub data Token : Type 0 where
  token : Argument → Bytes → Token
  bad : Token

-- behind a closing quotation mark there is a space or the end
quoted_token : Bytes → Option (Bytes × Bytes) → Token
quoted_token lead none = bad
quoted_token lead (some (value, [])) =
    token (record { lead = lead; raw = quoted value; value = value }) []
quoted_token lead (some (value, c ∷ rest)) =
    if is_space c
    then token (record { lead = lead; raw = quoted value; value = value }) (c ∷ rest)
    else bad

abbrev is_bare : ℕ → Bool
is_bare c = not (is_space c) && not (c == b'"')

-- the loop over an unquoted argument stops at a space, or gives up at a quotation mark
bare_token : Bytes → Bytes → Bytes → Token
bare_token lead value [] = token (record { lead = lead; raw = value; value = value }) []
bare_token lead value (c ∷ rest) =
    if is_space c
    then token (record { lead = lead; raw = value; value = value }) (c ∷ rest)
    else bad

unfoldable pub read_token : Bytes → ℕ → Bytes → Token
unfolding quoted_token bare_token is_space
read_token lead c rest =
    if c == b'"'
    then quoted_token lead (cut_byte b'"' rest)
    else bare_token lead (take_while is_bare (c ∷ rest)) (drop_while is_bare (c ∷ rest))

pub and_then : Token → (Bytes → Split) → Split
and_then bad next = refused
and_then (token a rest) next = prepend a (next rest)

-- one round of `splitArguments`: behind the space it has passed over, the text ends or an
-- argument begins
pub round : (Bytes → Split) → Bytes → Bytes → Split
round next lead [] = arguments [] lead
round next lead (c ∷ rest) = and_then (read_token lead c rest) next

unfoldable pub split_loop : ℕ → Bytes → Split
unfolding is_space round and_then prepend read_token
split_loop zero input = unfinished
split_loop (suc fuel) input =
    round (split_loop fuel) (take_while is_space input) (drop_while is_space input)

-- every round but the last takes at least one byte
unfoldable pub split_arguments : Bytes → Split
unfolding split_loop
split_arguments input = split_loop (suc (length input)) input
