-- ===== src/Groups/Region/Placed.antt =====
-- internal/application/region.go: where `ApplyRegion` puts the lines of a region.
use ssh_ui.Base.{
  ℕ, zero, suc, ◌+◌, ◌≤◌, ◌≡◌, refl, sym, ap, ◌∙◌, false, List, [], ◌∷◌, ◌++◌, arith, length,
  length-append, All, Bytes, str_eq, Bool-cases, inl, inr,
}
use mathlib.Core.List.{append_assoc}
use ssh_ui.Config.Line.{Line}
use ssh_ui.Edit.Lines.{end_with, insert_line, dominant_ending}
use ssh_ui.Groups.Region.{is_marker, insert_lines}
use ssh_ui.Groups.Region.Found.{Free}

-- a line that ends in a line break
abbrev pub IsEnded : Line → Type 0
IsEnded l = str_eq l.ending [] ≡ false

pub dominant_ending-some : (ls : List Line) → str_eq (dominant_ending ls) [] ≡ false
unfolding dominant_ending
dominant_ending-some [] = unfold str_eq in refl
dominant_ending-some (l ∷ ls) = elim (Bool-cases (str_eq l.ending [])) [
  | inl e ↦ rw (dominant_ending, e) (dominant_ending-some ls)
  | inr e ↦ rw (dominant_ending, e) e
]

end_with-is_marker :
    (marker ending : Bytes) (l : Line) → is_marker marker (end_with ending l) ≡ is_marker marker l
unfolding is_marker end_with
end_with-is_marker marker ending l = elim (Bool-cases (str_eq l.ending [])) [
  | inl e ↦ rw e refl
  | inr e ↦ rw e refl
]

-- The lines before one that is put at a position: those of the file, the last with an ending.
pub record IsPlaced (position : ℕ) (new : Line) (ls placed : List Line) : Type 0 where
  pub before : List Line
  pub behind : List Line
  pub long : length before ≡ position
  pub shape : placed ≡ before ++ (new ∷ behind)
  pub free : (marker : Bytes) → Free (is_marker marker) ls → Free (is_marker marker) before

pub insert_line-IsPlaced :
    (position : ℕ) (new : Line) (ls : List Line)
    → position ≤ length ls
    → IsPlaced position new ls (insert_line position new ls)
unfolding insert_line
insert_line-IsPlaced zero new ls h = record {
  before = [];
  behind = ls;
  long = refl;
  shape = refl;
  free = λ m f. tt;
}
insert_line-IsPlaced (suc n) new [] h = absurd (omega arith)
insert_line-IsPlaced (suc zero) new (l ∷ ls) h = record {
  before = end_with new.ending l ∷ [];
  behind = ls;
  long = refl;
  shape = refl;
  free = λ m f. (end_with-is_marker m new.ending l ∙ f.0, tt);
}
insert_line-IsPlaced (suc (suc n)) new (l ∷ ls) h =
    let p = insert_line-IsPlaced (suc n) new ls (omega arith) in
    record {
      before = l ∷ p.before;
      behind = p.behind;
      long = ap suc p.long;
      shape = ap (◌∷◌ l) p.shape;
      free = λ m f. (f.0, p.free m f.1);
    }

insert_line-behind :
    (before : List Line) (l new : Line) (behind : List Line)
    → IsEnded l
    → insert_line (suc (length before)) new (before ++ (l ∷ behind)) ≡ before ++ (l ∷ new ∷ behind)
unfolding insert_line end_with
insert_line-behind [] l new behind e = rw e refl
insert_line-behind (b ∷ before) l new behind e =
    ap (◌∷◌ b) (insert_line-behind before l new behind e)

length-snoc : (before : List Line) (l : Line) → length (before ++ (l ∷ [])) ≡ suc (length before)
length-snoc before l =
    let e : length (before ++ (l ∷ [])) ≡ length before + 1 = length-append before (l ∷ []) in
    omega arith

insert_lines-behind :
    (before : List Line) (l : Line) (news behind : List Line)
    → All IsEnded (l ∷ news)
    → insert_lines (suc (length before)) news (before ++ (l ∷ behind))
      ≡ before ++ (l ∷ (news ++ behind))
unfolding insert_lines
insert_lines-behind before l [] behind e = refl
insert_lines-behind before l (n ∷ news) behind (e, es) =
    ap (insert_lines (suc (suc (length before))) news)
      (insert_line-behind before l n behind e ∙ sym (append_assoc before (l ∷ []) (n ∷ behind)))
    ∙ ap (λ k. insert_lines (suc k) news ((before ++ (l ∷ [])) ++ (n ∷ behind)))
        (sym (length-snoc before l))
    ∙ insert_lines-behind (before ++ (l ∷ [])) n news behind es
    ∙ append_assoc before (l ∷ []) (n ∷ (news ++ behind))

-- Lines that end in line breaks stand behind one another where they are put.
pub insert_lines-shape :
    (position : ℕ) (new : Line) (news ls : List Line)
    (p : IsPlaced position new ls (insert_line position new ls))
    → All IsEnded (new ∷ news)
    → insert_lines position (new ∷ news) ls ≡ p.before ++ (new ∷ (news ++ p.behind))
unfolding insert_lines
insert_lines-shape position new news ls p e =
    ap (insert_lines (suc position) news) p.shape
    ∙ ap (λ k. insert_lines (suc k) news (p.before ++ (new ∷ p.behind))) (sym p.long)
    ∙ insert_lines-behind p.before new news p.behind e
