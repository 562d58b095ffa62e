-- ===== src/Config/Parse/Directive.antt =====
-- How a directive line is read: indentation, keyword, separator, arguments.
use ssh_ui.Base.{
  ◌≡◌, refl, true, false, List, [], ◌∷◌, ◌++◌, Bytes, codes, take_while, drop_while, ◌==◌,
  take_while-append, drop_while-append, arith, StopsAt, all,
}
use ssh_ui.Config.Token.{Argument, is_space, arguments, split_arguments}
use ssh_ui.Config.Line.{directive}
use ssh_ui.Config.Parse.{is_keyword, split_separator, parse_line}

-- What follows a separator of one space, so that the separator ends there.
abbrev pub IsPlainStart : Bytes → Type 0
IsPlainStart [] = Unit
IsPlainStart (c ∷ cs) = (is_space c ≡ false) × ((c == b'=') ≡ false)

split_separator_space :
    (rest : Bytes) → IsPlainStart rest → split_separator (codes " " ++ rest) ≡ (codes " ", rest)
unfolding split_separator take_while drop_while
split_separator_space [] h = refl
split_separator_space (c ∷ cs) h = rw (h.0, h.1)

-- A keyword that does not begin a comment.
abbrev pub IsKeyword : Bytes → Type 0
IsKeyword [] = ⊥
IsKeyword (c ∷ cs) = (all is_keyword (c ∷ cs) ≡ true) × ((c == b'#') ≡ false)

-- The line that is read from an indentation, a keyword, one space and arguments.
pub parse_line_directive :
    (indent keyword rest ending : Bytes) (xs : List Argument)
    → all is_space indent ≡ true
    → IsKeyword keyword
    → IsPlainStart rest
    → split_arguments rest ≡ arguments xs []
    → parse_line (indent ++ (keyword ++ (codes " " ++ rest))) ending ≡ record {
      kind = directive;
      text = [];
      indent = indent;
      keyword = keyword;
      separator = codes " ";
      args = xs;
      trailing = [];
      ending = ending;
    }
unfolding parse_line
parse_line_directive indent [] rest ending xs s k p e = absurd k
parse_line_directive indent (c ∷ cs) rest ending xs s k p e =
    let text = (c ∷ cs) ++ (codes " " ++ rest) in
    let stop : StopsAt is_space text = unfold all in ground arith in
    rw (
      take_while-append is_space indent text s stop,
      drop_while-append is_space indent text s stop,
      k.1,
      take_while-append is_keyword (c ∷ cs) (codes " " ++ rest) k.0 refl,
      drop_while-append is_keyword (c ∷ cs) (codes " " ++ rest) k.0 refl,
      split_separator_space rest p,
      e,
    )
