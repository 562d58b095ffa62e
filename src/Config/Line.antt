-- ===== src/Config/Line.antt =====
-- internal/config/line.go: one physical line.
use ssh_ui.Base.{
  Bool, ◌&&◌, List, [], ◌∷◌, ◌++◌, ascii_lower, Bytes, codes, has_prefix, str_eq, ◌==◌,
  if◌then◌else◌,
}
use ssh_ui.Config.Token.{Argument}

pub data LineKind : Type 0 where
  blank comment directive unstructured : LineKind

pub record Line : Type 0 where
  pub kind : LineKind
  pub text : Bytes
  pub indent : Bytes
  pub keyword : Bytes
  pub separator : Bytes
  pub args : List Argument
  pub trailing : Bytes
  pub ending : Bytes

-- A line of any kind but `directive`; the other fields have their zero values.
abbrev pub verbatim : LineKind → Bytes → Bytes → Line
verbatim kind text ending = record {
  kind = kind;
  text = text;
  indent = [];
  keyword = [];
  separator = [];
  args = [];
  trailing = [];
  ending = ending;
}

unfoldable pub render_arguments : List Argument → Bytes
render_arguments [] = []
render_arguments (a ∷ xs) = a.lead ++ (a.raw ++ render_arguments xs)

-- the content of a directive line, without its ending
abbrev pub directive_text : Line → Bytes
directive_text l =
    l.indent ++ (l.keyword ++ (l.separator ++ (render_arguments l.args ++ l.trailing)))

abbrev pub content_of : LineKind → Line → Bytes
content_of directive l = directive_text l
content_of _ l = l.text

-- `Line.Render` without its ending, and with it
unfoldable pub content : Line → Bytes
content l = content_of l.kind l

unfoldable pub render_line : Line → Bytes
unfolding content
render_line l = content l ++ l.ending

-- the loop of `Values`: it stops at the first argument that begins a comment
unfoldable pub argument_values : List Argument → List Bytes
argument_values [] = []
argument_values (a ∷ xs) =
    let rest = argument_values xs in if has_prefix a.raw (codes "#") then [] else a.value ∷ rest

values_of : LineKind → List Argument → List Bytes
values_of directive xs = argument_values xs
values_of _ xs = []

unfoldable pub values : Line → List Bytes
unfolding argument_values values_of
values l = values_of l.kind l.args

-- `strings.EqualFold` against an ASCII text. Two letters outside ASCII fold to ASCII ones:
-- U+017F to `s` and U+212A to `k`.
unfoldable pub fold_case : Bytes → Bytes
unfolding ascii_lower
fold_case (a ∷ b ∷ c ∷ cs) =
    let three = fold_case cs in
    let two = fold_case (c ∷ cs) in
    let one = fold_case (b ∷ c ∷ cs) in
    if a == 0xE2 && b == 0x84 && c == 0xAA
    then b'k' ∷ three
    else if a == 0xC5 && b == 0xBF
    then b's' ∷ two
    else ascii_lower a ∷ one
fold_case (a ∷ b ∷ []) =
    let one = fold_case (b ∷ []) in
    if a == 0xC5 && b == 0xBF then b's' ∷ [] else ascii_lower a ∷ one
fold_case (a ∷ []) = ascii_lower a ∷ []
fold_case [] = []

unfoldable pub equal_keyword : Bytes → Bytes → Bool
unfolding fold_case str_eq
equal_keyword first second = str_eq (fold_case first) (fold_case second)
