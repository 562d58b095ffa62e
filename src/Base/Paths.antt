-- ===== src/Base/Paths.antt =====
-- `path.Clean` on slash-separated paths.
use mathlib.Core.Bool.{Bool, true, false, ◌||◌}
use mathlib.Core.List.{List, [], ◌∷◌}
use ssh_ui.Base.Tests.{if◌then◌else◌}
use ssh_ui.Base.Text.{Bytes, codes, str_eq, has_prefix}
use ssh_ui.Base.Parts.{split_byte, join}

-- `..` behind the parts so far, the last of them first
up : Bool → List Bytes → List Bytes
up true [] = []
up false [] = codes ".." ∷ []
up rooted (part ∷ parts) = if str_eq part (codes "..") then codes ".." ∷ part ∷ parts else parts

clean_loop : Bool → List Bytes → List Bytes → List Bytes
unfolding up
clean_loop rooted parts [] = parts
clean_loop rooted parts (part ∷ rest) =
    clean_loop rooted
      (if str_eq part [] || str_eq part (codes ".")
        then parts
        else if str_eq part (codes "..")
        then up rooted parts
        else part ∷ parts)
      rest

backwards : List Bytes → List Bytes → List Bytes
backwards parts [] = parts
backwards parts (part ∷ rest) = backwards (part ∷ parts) rest

-- an empty path is `.`
or_dot : Bytes → Bytes
or_dot [] = codes "."
or_dot s = s

unfoldable pub clean : Bytes → Bytes
unfolding clean_loop backwards or_dot
clean s =
    let rooted = has_prefix s (codes "/") in
    let parts = join (codes "/") (backwards [] (clean_loop rooted [] (split_byte b'/' s))) in
    if rooted then b'/' ∷ parts else or_dot parts

-- `path.IsAbs`
abbrev pub is_abs : Bytes → Bool
is_abs s = has_prefix s (codes "/")
