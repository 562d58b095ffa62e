-- ===== src/Config/Include.antt =====
-- internal/config/include.go. The loader and the way of a path to the spelling of the root are
-- parameters; the texts of their errors are bytes.
use ssh_ui.Base.{
  ℕ, Bool, Option, none, some, List, [], ◌∷◌, ◌++◌, Bytes, codes, ◌==◌, str_eq, has_prefix,
  contains_byte, if◌then◌else◌, clean, Result,
}
use ssh_ui.Config.Parse.{File}

-- an error of `ReadFile`, with the answer of `errors.Is(err, fs.ErrNotExist)`
pub record ReadFailure : Type 0 where
  pub not_exist : Bool
  pub text : Bytes

-- A number that is not positive is 0 here.
pub record Resolver : Type 0 where
  pub read_file : Bytes → Result ReadFailure Bytes
  pub glob : Bytes → Result Bytes (List Bytes)
  pub home : Bytes
  pub root : Bytes
  pub normalise : Option (Bytes → Bytes)
  pub tokens : ℕ → Option Bytes
  pub max_depth : ℕ
  pub generated_region : Option (File → Option (ℕ × ℕ))

abbrev default_max_depth : ℕ
default_max_depth = 16

unfoldable pub max_depth_of : Resolver → ℕ
max_depth_of r = if r.max_depth == 0 then default_max_depth else r.max_depth

region_by : Option (File → Option (ℕ × ℕ)) → File → Option (ℕ × ℕ)
region_by none f = none
region_by (some find) f = find f

unfoldable pub generated_lines : Resolver → File → Option (ℕ × ℕ)
unfolding region_by
generated_lines r f = region_by r.generated_region f

-- behind a percent sign, with what the rest of the argument becomes
token_value : Resolver → ℕ → Option Bytes
token_value r c = if c == b'%' then some (codes "%") else r.tokens c

push_value : Option Bytes → Option Bytes → Option Bytes
push_value (some value) (some rest) = some (value ++ rest)
push_value _ _ = none

-- `none` is `ErrUnsupportedExpansion`
unfoldable pub expand_loop : Resolver → Bytes → Option Bytes
unfolding token_value push_value
expand_loop r [] = some []
expand_loop r (c ∷ []) = if c == b'%' then none else some (c ∷ [])
expand_loop r (c ∷ d ∷ cs) =
    let behind = expand_loop r cs in
    let rest = expand_loop r (d ∷ cs) in
    if c == b'%' then push_value (token_value r d) behind else push_value (some (c ∷ [])) rest

unfoldable pub expand_tokens : Resolver → Bytes → Option Bytes
unfolding expand_loop
expand_tokens r argument =
    if contains_byte b'%' argument then expand_loop r argument else some argument

normalised : Option (Bytes → Bytes) → Bytes → Bytes
normalised none path = path
normalised (some f) path = f path

-- `~user` asks for the user database
unfoldable pub from_home : Resolver → Bytes → Option Bytes
from_home r expanded =
    if str_eq expanded (codes "~")
    then some r.home
    else if has_prefix expanded (codes "~/")
    then some (r.home ++ drop_one expanded)
    else if has_prefix expanded (codes "~")
    then none
    else if has_prefix expanded (codes "/")
    then some expanded
    else some (r.root ++ (codes "/" ++ expanded))
  where
    drop_one : Bytes → Bytes
    drop_one [] = []
    drop_one (c ∷ cs) = cs

clean_of : Resolver → Option Bytes → Option Bytes
unfolding normalised clean
clean_of r none = none
clean_of r (some path) = some (normalised r.normalise (clean path))

home_of : Resolver → Option Bytes → Option Bytes
unfolding from_home
home_of r none = none
home_of r (some expanded) = from_home r expanded

unfoldable pub expand_pattern : Resolver → Bytes → Option Bytes
unfolding expand_tokens home_of clean_of
expand_pattern r [] = none
expand_pattern r argument = clean_of r (home_of r (expand_tokens r argument))
