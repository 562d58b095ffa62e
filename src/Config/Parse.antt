-- ===== src/Config/Parse.antt =====
-- internal/config/parse.go: the classification of lines, and the file.
pub mod Directive
pub mod Lossless
pub mod RoundTrip
use ssh_ui.Base.{
  ℕ, zero, suc, ◌≡◌, Bool, true, false, not, ◌&&◌, Option, none, some, List, [], ◌∷◌, ◌++◌, Bytes,
  codes, cut_byte, take_while, drop_while, ◌==◌, if◌then◌else◌, length,
}
use ssh_ui.Config.Token.{Argument, is_space, Split, arguments, refused, unfinished, split_arguments}
use ssh_ui.Config.Line.{
  LineKind, blank, comment, directive, unstructured, Line, verbatim, render_line,
}

-- `strings.HasSuffix(content, "\r")`, with the text before it
unfoldable pub cut_return : Bytes → Option Bytes
cut_return [] = none
cut_return (c ∷ []) = if c == 13 then some [] else none
cut_return (c ∷ d ∷ cs) = elim (cut_return (d ∷ cs)) [ none ↦ none | some text ↦ some (c ∷ text) ]

pub record Piece : Type 0 where
  pub content : Bytes
  pub ending : Bytes
  pub rest : Bytes

line_piece : Bytes → Bytes → Option Bytes → Piece
line_piece content rest none = record { content = content; ending = codes "\n"; rest = rest }
line_piece content rest (some text) = record { content = text; ending = 13 ∷ 10 ∷ []; rest = rest }

first_piece : Bytes → Option (Bytes × Bytes) → Piece
first_piece text none = record { content = text; ending = []; rest = [] }
first_piece text (some (content, rest)) = line_piece content rest (cut_return content)

unfoldable pub split_line : Bytes → Piece
unfolding first_piece line_piece
split_line text = first_piece text (cut_byte b'\n' text)

abbrev pub is_keyword : ℕ → Bool
is_keyword c = not (is_space c) && not (c == b'=') && not (c == b'"')

-- spaces, and at most one `=` with the spaces behind it: the separator and what follows
unfoldable pub after_equals : Bytes → Bytes → Bytes × Bytes
unfolding is_space
after_equals spaces [] = (spaces, [])
after_equals spaces (c ∷ rest) =
    if c == b'='
    then (spaces ++ (c ∷ take_while is_space rest), drop_while is_space rest)
    else (spaces, c ∷ rest)

unfoldable pub split_separator : Bytes → Bytes × Bytes
unfolding after_equals
split_separator text = after_equals (take_while is_space text) (drop_while is_space text)

directive_line : Bytes → Bytes → Bytes → Bytes → Bytes → Split → Line
directive_line content ending indent keyword separator (arguments xs trailing) = record {
  kind = directive;
  text = [];
  indent = indent;
  keyword = keyword;
  separator = separator;
  args = xs;
  trailing = trailing;
  ending = ending;
}
directive_line content ending indent keyword separator refused =
    verbatim unstructured content ending
directive_line content ending indent keyword separator unfinished =
    verbatim unstructured content ending

-- behind the indentation and a keyword
parse_keyword : Bytes → Bytes → Bytes → Bytes → Bytes → Line
parse_keyword content ending indent [] rest = verbatim unstructured content ending
parse_keyword content ending indent keyword rest =
    let parts = split_separator rest in
    directive_line content ending indent keyword parts.0 (split_arguments parts.1)

-- behind the indentation
parse_text : Bytes → Bytes → Bytes → Bytes → Line
parse_text content ending indent [] = verbatim blank content ending
parse_text content ending indent (c ∷ rest) =
    if c == b'#'
    then verbatim comment content ending
    else parse_keyword content ending indent (take_while is_keyword (c ∷ rest))
        (drop_while is_keyword (c ∷ rest))

unfoldable pub parse_line : Bytes → Bytes → Line
unfolding parse_text parse_keyword directive_line is_space
parse_line content ending =
    parse_text content ending (take_while is_space content) (drop_while is_space content)

pub record File : Type 0 where
  pub lines : List Line

-- the loop of `Parse`; the fuel bounds the number of lines
unfoldable pub parse_loop : ℕ → Bytes → List Line
unfolding split_line parse_line
parse_loop zero remaining = []
parse_loop (suc fuel) [] = []
parse_loop (suc fuel) (c ∷ cs) =
    let piece = split_line (c ∷ cs) in
    parse_line piece.content piece.ending ∷ parse_loop fuel piece.rest

-- a line takes at least one byte
unfoldable pub parse : Bytes → File
unfolding parse_loop
parse source = record { lines = parse_loop (length source) source }

unfoldable pub render_lines : List Line → Bytes
unfolding render_line
render_lines [] = []
render_lines (l ∷ ls) = render_line l ++ render_lines ls

unfoldable pub render : File → Bytes
unfolding render_lines
render f = render_lines f.lines
