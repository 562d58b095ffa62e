-- ===== src/Config/Parse/Lossless.antt =====
-- internal/config/parse.go: a file that is read and rendered again.
use ssh_ui.Base.{
  ℕ, zero, suc, ◌≤◌, ◌<◌, ◌≡◌, refl, sym, ap, ◌∙◌, ◌⊎◌, inl, inr, Option, none, some, [], ◌∷◌, ◌++◌,
  Bytes, cut_byte, take_while, drop_while, ◌==◌, length, length-append, take_while-drop_while,
  cut_byte-eq-some, arith, Bool-cases,
}
use mathlib.Core.List.{append_assoc, append-nil}
use ssh_ui.Config.Token.{is_space, Split, arguments, refused, unfinished, split_arguments}
use ssh_ui.Config.Token.Scan.{split_arguments-lossless}
use ssh_ui.Config.Line.{content, render_line}
use ssh_ui.Config.Parse.{
  cut_return, Piece, line_piece, first_piece, split_line, is_keyword, after_equals, split_separator,
  directive_line, parse_keyword, parse_text, parse_line, parse_loop, parse, render_lines, render,
}

-- What `cut_return` found is the text before a carriage return at the end.
abbrev pub Cuts : Bytes → Option Bytes → Type 0
Cuts s none = Unit
Cuts s (some t) = s ≡ t ++ (13 ∷ [])

pub cut_return-Cuts : (s : Bytes) → Cuts s (cut_return s)
unfolding cut_return
cut_return-Cuts [] = tt
cut_return-Cuts (c ∷ []) = ground arith
cut_return-Cuts (c ∷ d ∷ cs) = go (cut_return (d ∷ cs)) (cut_return-Cuts (d ∷ cs))
  where
    go :
        (o : Option Bytes)
        → Cuts (d ∷ cs) o
        → Cuts (c ∷ d ∷ cs) (elim o [ none ↦ none | some text ↦ some (c ∷ text) ])
    go none h = tt
    go (some t) h = ap (◌∷◌ c) h

after_equals-append :
    (spaces text : Bytes)
    → (after_equals spaces text).0 ++ (after_equals spaces text).1 ≡ spaces ++ text
unfolding after_equals
after_equals-append spaces [] = refl
after_equals-append spaces (c ∷ rest) = elim (Bool-cases (c == b'=')) [
  | inl e ↦ rw e (
      append_assoc spaces (c ∷ take_while is_space rest) (drop_while is_space rest)
      ∙ ap (λ t. spaces ++ (c ∷ t)) (take_while-drop_while is_space rest))
  | inr e ↦ rw e
]

-- The separator and what follows it make up the text.
pub split_separator-append :
    (text : Bytes) → (split_separator text).0 ++ (split_separator text).1 ≡ text
unfolding split_separator
split_separator-append text =
    after_equals-append (take_while is_space text) (drop_while is_space text)
    ∙ take_while-drop_while is_space text

directive_line-content :
    (text ending indent keyword separator rest : Bytes) (s : Split)
    → split_arguments rest ≡ s
    → indent ++ (keyword ++ (separator ++ rest)) ≡ text
    → content (directive_line text ending indent keyword separator s) ≡ text
unfolding directive_line content
directive_line-content text ending indent keyword separator rest (arguments xs trailing) e h =
    rw (split_arguments-lossless rest e) h
directive_line-content text ending indent keyword separator rest refused e h = refl
directive_line-content text ending indent keyword separator rest unfinished e h = refl

parse_keyword-content :
    (text ending indent keyword rest : Bytes)
    → indent ++ (keyword ++ rest) ≡ text
    → content (parse_keyword text ending indent keyword rest) ≡ text
unfolding parse_keyword
parse_keyword-content text ending indent [] rest h = unfold content in refl
parse_keyword-content text ending indent (c ∷ cs) rest h =
    directive_line-content text ending indent (c ∷ cs) (split_separator rest).0
      (split_separator rest).1 _ refl (rw split_separator-append h)

-- A parsed line renders to its content.
pub parse_line-content : (text ending : Bytes) → content (parse_line text ending) ≡ text
unfolding parse_line
parse_line-content text ending = go (drop_while is_space text) (take_while-drop_while is_space text)
  where
    go :
        (rest : Bytes)
        → take_while is_space text ++ rest ≡ text
        → content (parse_text text ending (take_while is_space text) rest) ≡ text
    go [] h = unfold content in refl
    go (c ∷ rest) h = elim (Bool-cases (c == b'#')) [
      | inl e ↦ rw e (unfold content in refl)
      | inr e ↦ rw e (
          parse_keyword-content text ending (take_while is_space text) _ _
            (rw (take_while-drop_while is_keyword (c ∷ rest)) h))
    ]

pub ending-parse_line : (text ending : Bytes) → (parse_line text ending).ending ≡ ending
unfolding parse_line
ending-parse_line text ending = go (drop_while is_space text)
  where
    after :
        (indent keyword separator : Bytes) (s : Split)
        → (directive_line text ending indent keyword separator s).ending ≡ ending
    after indent keyword separator (arguments xs t) = refl
    after indent keyword separator refused = refl
    after indent keyword separator unfinished = refl

    named :
        (indent keyword rest : Bytes)
        → (parse_keyword text ending indent keyword rest).ending ≡ ending
    named indent [] rest = refl
    named indent (c ∷ cs) rest = after indent (c ∷ cs) _ _

    go : (rest : Bytes) → (parse_text text ending (take_while is_space text) rest).ending ≡ ending
    go [] = refl
    go (c ∷ rest) = elim (Bool-cases (c == b'#')) [ inl e ↦ rw e | inr e ↦ rw e (named _ _ _) ]

abbrev pub IsPieceOf : Bytes → Piece → Type 0
IsPieceOf text p =
    (p.content ++ (p.ending ++ p.rest) ≡ text)
    × ((p.ending ≡ []) × (p.rest ≡ []) ⊎ (0 < length p.ending))

line_piece-IsPieceOf :
    (before rest : Bytes) (o : Option Bytes)
    → Cuts before o
    → IsPieceOf (before ++ (b'\n' ∷ rest)) (line_piece before rest o)
unfolding line_piece
line_piece-IsPieceOf before rest none h = (refl, inr (omega arith))
line_piece-IsPieceOf before rest (some t) h =
    (rw h (sym (append_assoc t (13 ∷ []) (b'\n' ∷ rest))), inr (omega arith))

first_piece-IsPieceOf :
    (text : Bytes) (o : Option (Bytes × Bytes))
    → cut_byte b'\n' text ≡ o
    → IsPieceOf text (first_piece text o)
unfolding first_piece
first_piece-IsPieceOf text none e = (append-nil text, inl (refl, refl))
first_piece-IsPieceOf text (some (before, rest)) e =
    rw (cut_byte-eq-some b'\n' text e).0
      (line_piece-IsPieceOf before rest (cut_return before) (cut_return-Cuts before))

-- The line cut off, its ending and the rest are the text.
pub split_line-IsPieceOf : (text : Bytes) → IsPieceOf text (split_line text)
unfolding split_line
split_line-IsPieceOf text = first_piece-IsPieceOf text (cut_byte b'\n' text) refl

pub split_line-shorter : (c : ℕ) (cs : Bytes) → length (split_line (c ∷ cs)).rest ≤ length cs
split_line-shorter c cs = go (split_line (c ∷ cs)) (split_line-IsPieceOf (c ∷ cs))
  where
    go : (p : Piece) → IsPieceOf (c ∷ cs) p → length p.rest ≤ length cs
    go p (h, inl (_, r)) = rw r (omega arith)
    go p (h, inr n) = omega (
      arith,
      ap length h,
      length-append {0} p.content (p.ending ++ p.rest),
      length-append {0} p.ending p.rest,
    )

render-parse_line : (text ending : Bytes) → render_line (parse_line text ending) ≡ text ++ ending
unfolding render_line
render-parse_line text ending = rw (parse_line-content text ending, ending-parse_line text ending)

parse_loop-lossless :
    (fuel : ℕ) (text : Bytes) → length text ≤ fuel → render_lines (parse_loop fuel text) ≡ text
unfolding parse_loop render_lines
parse_loop-lossless zero [] h = refl
parse_loop-lossless zero (c ∷ cs) h = absurd (omega arith)
parse_loop-lossless (suc fuel) [] h = refl
parse_loop-lossless (suc fuel) (c ∷ cs) h =
    let p = split_line (c ∷ cs) in
    rw
      (
        render-parse_line p.content p.ending,
        parse_loop-lossless fuel p.rest (omega (arith, split_line-shorter c cs)),
      )
      (append_assoc p.content p.ending p.rest ∙ (split_line-IsPieceOf (c ∷ cs)).0)

-- Rendering a file that was parsed and not changed gives back its source, byte for byte.
pub render-parse : (source : Bytes) → render (parse source) ≡ source
unfolding render parse
render-parse source = parse_loop-lossless (length source) source (omega arith)
