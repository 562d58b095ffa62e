-- ===== src/Edit/Build.antt =====
-- internal/application/edit.go: the directive lines that the application writes itself.
pub mod ReadBack
use ssh_ui.Base.{
  ℕ, zero, suc, Bool, true, false, not, ◌&&◌, ◌||◌, Option, none, some, List, [], ◌∷◌, ◌++◌, map,
  Bytes, codes, has_prefix, str_eq, to_lower, leb, ltb, ◌==◌, if◌then◌else◌, length, Result, ok,
  err, ◌>>=◌, ◌>>◌, or_err, guard,
}
use ssh_ui.Config.Token.{Argument, render_argument}
use ssh_ui.Config.Line.{Line, directive}

pub data EditError : Type 0 where
  unknown_edit_action edit_line_outside_block edit_line_not_directive duplicate_edit_line :
      EditError
  unquotable_value empty_keyword invalid_keyword structural_keyword : EditError
  raw_block_header raw_block_structure invalid_alias host_not_found : EditError

unfoldable pub is_letter : ℕ → Bool
is_letter c = leb b'a' c && leb c b'z' || leb b'A' c && leb c b'Z'

abbrev pub is_digit : ℕ → Bool
is_digit c = leb b'0' c && leb c b'9'

unfoldable pub is_structural : Bytes → Bool
is_structural keyword =
    let lowered = to_lower keyword in
    str_eq lowered (codes "host")
    || str_eq lowered (codes "match")
    || str_eq lowered (codes "include")

-- the loop of `validateKeyword`; the flag is `index > 0`
keyword_bytes : Bool → Bytes → Bool
keyword_bytes later [] = true
keyword_bytes later (c ∷ cs) =
    (is_letter c || later && (is_digit c || c == b'-')) && keyword_bytes true cs

unfoldable pub validate_keyword : Bytes → Result EditError (Unit {0})
unfolding keyword_bytes is_letter
validate_keyword [] = err empty_keyword
validate_keyword keyword =
    if is_structural keyword
    then err structural_keyword
    else if ltb 64 (length keyword)
    then err invalid_keyword
    else guard (keyword_bytes false keyword) invalid_keyword

-- `renderArgument`: the error of the package
unfoldable pub render_value : Bytes → Bytes → Result EditError Argument
render_value lead value = or_err unquotable_value (render_argument lead value)

-- the loop of `buildLine`; the first value has no lead
unfoldable pub build_arguments : Bytes → List Bytes → Result EditError (List Argument)
build_arguments lead [] = ok []
build_arguments lead (v ∷ vs) = do
  a ← render_value lead v
  rest ← build_arguments (codes " ") vs
  ok (a ∷ rest)

unfoldable pub build_line : Bytes → Bytes → List Bytes → Bytes → Result EditError Line
unfolding build_arguments render_value
build_line indent keyword vs ending = do
  args ← build_arguments [] vs
  ok (record {
    kind = directive;
    text = [];
    indent = indent;
    keyword = keyword;
    separator = codes " ";
    args = args;
    trailing = [];
    ending = ending;
  })

unfoldable pub build_directive_line : Bytes → Bytes → List Bytes → Bytes → Result EditError Line
unfolding validate_keyword build_line
build_directive_line indent keyword vs ending = do
  validate_keyword keyword
  build_line indent keyword vs ending
