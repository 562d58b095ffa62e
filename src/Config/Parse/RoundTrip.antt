-- ===== src/Config/Parse/RoundTrip.antt =====
-- internal/config/parse.go: lines that are rendered and read again.
use ssh_ui.Base.{
  ℕ, zero, suc, ◌≤◌, ◌≡◌, ◌≢◌, refl, sym, ap, ap₂, subst, ◌∙◌, Bool, true, ◌⊎◌, inl, inr, Option,
  none, some, List, [], ◌∷◌, ◌++◌, Bytes, codes, cut_byte, length, cut_byte-eq-some,
  cut_byte-append, cut_byte-eq-none, all-is_not, arith, all, is_not,
}
use mathlib.Core.List.{append_assoc, append-nil}
use ssh_ui.Config.Line.{Line, content, render_line}
use ssh_ui.Config.Parse.{
  cut_return, Piece, line_piece, first_piece, split_line, parse_line, parse_loop, File, parse,
  render_lines, render,
}
use ssh_ui.Config.Parse.Lossless.{
  Cuts, cut_return-Cuts, parse_line-content, ending-parse_line, split_line-shorter,
  split_line-IsPieceOf,
}

-- The line is what its own content reads as, and holds no line break.
pub record IsCanonical (l : Line) : Type 0 where
  pub reads_back : parse_line (content l) l.ending ≡ l
  pub one_line : all (is_not b'\n') (content l) ≡ true

-- A content and the line break behind it that `splitLine` tells apart again.
pub data Ends : Bytes → Bytes → Type 0 where
  newline : {t e : Bytes} → e ≡ codes "\n" → cut_return t ≡ none → Ends t e
  return : {t e : Bytes} → e ≡ 13 ∷ 10 ∷ [] → Ends t e

pub data Canonical : List Line → Type 0 where
  done : Canonical []
  last : {l : Line} → IsCanonical l → l.ending ≡ [] → content l ≢ [] → Canonical (l ∷ [])
  more :
      {l : Line} {ls : List Line}
      → IsCanonical l
      → Ends (content l) l.ending
      → Canonical ls
      → Canonical (l ∷ ls)

abbrev PieceEnds : Piece → Type 0
PieceEnds p =
    (all (is_not b'\n') p.content ≡ true)
    × ((p.ending ≡ []) × (p.rest ≡ []) ⊎ Ends p.content p.ending)

all_before : (p : ℕ → Bool) (s t : Bytes) → all p (s ++ t) ≡ true → all p s ≡ true
unfolding all
all_before p [] t h = refl
all_before p (c ∷ cs) t h = ground (arith, all_before p cs t)

line_piece-PieceEnds :
    (before rest : Bytes) (o : Option Bytes)
    → cut_return before ≡ o
    → Cuts before o
    → all (is_not b'\n') before ≡ true
    → PieceEnds (line_piece before rest o)
unfolding line_piece
line_piece-PieceEnds before rest none e c h = (h, inr (newline refl e))
line_piece-PieceEnds before rest (some t) e c h = (
  all_before (is_not b'\n') t (13 ∷ []) (subst (λ s. all (is_not b'\n') s ≡ true) c h),
  inr (return refl),
)

first_piece-PieceEnds :
    (text : Bytes) (o : Option (Bytes × Bytes))
    → cut_byte b'\n' text ≡ o
    → PieceEnds (first_piece text o)
unfolding first_piece
first_piece-PieceEnds text none e = (all-is_not b'\n' text e, inl (refl, refl))
first_piece-PieceEnds text (some (before, rest)) e =
    line_piece-PieceEnds before rest (cut_return before) refl (cut_return-Cuts before)
      (cut_byte-eq-some b'\n' text e).1

split_line-PieceEnds : (text : Bytes) → PieceEnds (split_line text)
unfolding split_line
split_line-PieceEnds text = first_piece-PieceEnds text (cut_byte b'\n' text) refl

parse_line-IsCanonical :
    (text ending : Bytes) → all (is_not b'\n') text ≡ true → IsCanonical (parse_line text ending)
parse_line-IsCanonical text ending h = record {
  reads_back = ap₂ parse_line (parse_line-content text ending) (ending-parse_line text ending);
  one_line = rw (parse_line-content text ending) h;
}

parse_loop-nil : (fuel : ℕ) → parse_loop fuel [] ≡ []
unfolding parse_loop
parse_loop-nil zero = refl
parse_loop-nil (suc fuel) = refl

nonempty :
    (p : Piece) {c : ℕ} {cs : Bytes}
    → p.ending ≡ []
    → p.rest ≡ []
    → p.content ++ (p.ending ++ p.rest) ≡ c ∷ cs
    → p.content ≢ []
nonempty p e r q z = grind (arith, append-nil, r, e, q, z)

parse_loop-Canonical : (fuel : ℕ) (text : Bytes) → Canonical (parse_loop fuel text)
unfolding parse_loop
parse_loop-Canonical zero text = done
parse_loop-Canonical (suc fuel) [] = done
parse_loop-Canonical (suc fuel) (c ∷ cs) =
    go (split_line (c ∷ cs)) (split_line-PieceEnds (c ∷ cs)) (split_line-IsPieceOf (c ∷ cs)).0
      (parse_loop-Canonical fuel (split_line (c ∷ cs)).rest)
  where
    go :
        (p : Piece)
        → PieceEnds p
        → p.content ++ (p.ending ++ p.rest) ≡ c ∷ cs
        → Canonical (parse_loop fuel p.rest)
        → Canonical (parse_line p.content p.ending ∷ parse_loop fuel p.rest)
    go p (h, inr e) q k =
        more (parse_line-IsCanonical p.content p.ending h)
          (rw (parse_line-content p.content p.ending, ending-parse_line p.content p.ending) e) k
    go p (h, inl (e, r)) q k =
        rw (r, parse_loop-nil)
          (last (parse_line-IsCanonical p.content p.ending h)
            (ending-parse_line p.content p.ending ∙ e)
            (rw (parse_line-content p.content p.ending) (nonempty p e r q)))

-- Whatever is read is canonical.
pub parse-Canonical : (source : Bytes) → Canonical (parse source).lines
unfolding parse
parse-Canonical source = parse_loop-Canonical (length source) source

cut_return-append : (t : Bytes) → cut_return (t ++ (13 ∷ [])) ≡ some t
unfolding cut_return
cut_return-append [] = refl
cut_return-append (c ∷ []) = refl
cut_return-append (c ∷ d ∷ cs) = rw (cut_return-append (d ∷ cs))

all_concat :
    (p : ℕ → Bool) (t : Bytes) (c : ℕ) → all p t ≡ true → p c ≡ true → all p (t ++ (c ∷ [])) ≡ true
unfolding all
all_concat p [] c h k = ground arith
all_concat p (x ∷ t) c h k = ground (arith, all_concat p t c)

split_line-Ends :
    (t e rest : Bytes)
    → all (is_not b'\n') t ≡ true
    → Ends t e
    → split_line (t ++ (e ++ rest)) ≡ record { content = t; ending = e; rest = rest }
unfolding split_line first_piece line_piece
split_line-Ends t e rest h (newline p c) = rw (p, cut_byte-append b'\n' t rest h, c)
split_line-Ends t e rest h (return p) = rw (
  p,
  ← append_assoc t (13 ∷ []) (b'\n' ∷ rest),
  cut_byte-append b'\n' (t ++ (13 ∷ [])) rest (all_concat (is_not b'\n') t 13 h refl),
  cut_return-append t,
)

split_line_last :
    (t : Bytes)
    → all (is_not b'\n') t ≡ true
    → split_line (t ++ []) ≡ record { content = t; ending = []; rest = [] }
unfolding split_line first_piece
split_line_last t h = rw (append-nil t, cut_byte-eq-none b'\n' t h)

-- One line is read, given its piece and the reading of the rest.
parse_loop_piece :
    (fuel : ℕ) (text t e rest : Bytes) (ls : List Line)
    → split_line text ≡ record { content = t; ending = e; rest = rest }
    → text ≢ []
    → ((f : ℕ) → length rest ≤ f → parse_loop f rest ≡ ls)
    → length text ≤ fuel
    → parse_loop fuel text ≡ parse_line t e ∷ ls
unfolding parse_loop
parse_loop_piece fuel [] t e rest ls s ne k h = absurd (ne refl)
parse_loop_piece zero (c ∷ cs) t e rest ls s ne k h = absurd (omega arith)
parse_loop_piece (suc fuel) (c ∷ cs) t e rest ls s ne k h =
    let short = split_line-shorter c cs in
    rw s (ap (◌∷◌ (parse_line t e)) (k fuel (omega (arith, rw s at short))))

line_ne : (t e rest : Bytes) → Ends t e → t ++ (e ++ rest) ≢ []
line_ne [] e rest (newline p q) h = grind (arith, p, h)
line_ne [] e rest (return p) h = grind (arith, p, h)
line_ne (c ∷ t) e rest k h = cc

parse_loop-render_lines :
    (ls : List Line)
    → Canonical ls
    → (fuel : ℕ) → length (render_lines ls) ≤ fuel
    → parse_loop fuel (render_lines ls) ≡ ls
unfolding render_lines render_line
parse_loop-render_lines [] done fuel h = parse_loop-nil fuel
parse_loop-render_lines (l ∷ ls) (more c e k) fuel h =
    let assoc = append_assoc (content l) l.ending (render_lines ls) in
    subst (λ s. parse_loop fuel s ≡ l ∷ ls) (sym assoc)
      (parse_loop_piece fuel _ (content l) l.ending (render_lines ls) ls
          (split_line-Ends (content l) l.ending (render_lines ls) c.one_line e)
          (line_ne (content l) l.ending (render_lines ls) e) (parse_loop-render_lines ls k)
          (subst (λ s. length s ≤ fuel) assoc h)
        ∙ ap (λ (x : Line). x ∷ ls) c.reads_back)
parse_loop-render_lines (l ∷ ls) (last c e k) fuel h =
    let whole =
      append_assoc (content l) l.ending [] ∙ ap (λ (x : Bytes). content l ++ (x ++ [])) e in
    subst (λ s. parse_loop fuel s ≡ l ∷ []) (sym whole)
      (parse_loop_piece fuel _ (content l) [] [] [] (split_line_last (content l) c.one_line)
          (λ z. k (sym (append-nil (content l)) ∙ z)) (λ f _. parse_loop-nil f)
          (subst (λ s. length s ≤ fuel) whole h)
        ∙ ap (λ (x : Line). x ∷ []) (ap (parse_line (content l)) (sym e) ∙ c.reads_back))

-- A file of canonical lines is read back as it was written.
pub parse-render : (f : File) → Canonical f.lines → parse (render f) ≡ f
unfolding parse render
parse-render f c =
    rw (parse_loop-render_lines f.lines c (length (render_lines f.lines)) (omega arith))
