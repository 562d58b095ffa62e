-- ===== src/Edit/Header/Replace.antt =====
-- internal/application/edit.go: what `ReplaceBlock` leaves of the file, byte for byte.
use ssh_ui.Base.{
  ℕ, ◌≡◌, refl, sym, ap, subst, ◌∙◌, ◌⊎◌, inl, inr, Bool, true, false, List, [], ◌∷◌, ◌++◌, Option,
  none, some, Bytes, str_eq, str_eq_iff, ltb, if◌then◌else◌, length, ok, ok_eq, bind-eq-ok, or_err,
}
use mathlib.Core.List.{append_assoc, append-nil}
use ssh_ui.Config.Line.{
  LineKind, blank, comment, directive, unstructured, Line, render_line, content, content_of,
}
use ssh_ui.Config.Parse.{File, parse, render, render_lines}
use ssh_ui.Config.Parse.Lossless.{render-parse}
use ssh_ui.Config.Block.{Block}
use ssh_ui.Edit.Build.{EditError}
use ssh_ui.Edit.Lines.{dominant_ending, end_with}
use ssh_ui.Edit.Header.{
  take_lines, drop_lines, end_last, replacement, replace_block, inside, check_raw, directives,
}

render_lines-append :
    (xs ys : List Line) → render_lines (xs ++ ys) ≡ render_lines xs ++ render_lines ys
unfolding render_lines
render_lines-append [] ys = refl
render_lines-append (l ∷ xs) ys =
    ap (λ t. render_line l ++ t) (render_lines-append xs ys)
    ∙ sym (append_assoc (render_line l) (render_lines xs) (render_lines ys))

-- nothing, or the ending that the file uses
abbrev pub IsAdded : Bytes → Bytes → Type 0
IsAdded ending added = (added ≡ []) ⊎ (added ≡ ending)

abbrev Grown : Bytes → Bytes → Bytes → Type 0
Grown ending before after = (added : Bytes) × IsAdded ending added × (after ≡ before ++ added)

content-ending : (l : Line) (ending : Bytes) → content (record l { ending = ending }) ≡ content l
unfolding content
content-ending l ending = go l.kind
  where
    go : (k : LineKind) → content_of k (record l { ending = ending }) ≡ content_of k l
    go blank = refl
    go comment = refl
    go directive = refl
    go unstructured = refl

end_with-Grown :
    (ending : Bytes) (l : Line) → Grown ending (render_line l) (render_line (end_with ending l))
unfolding end_with render_line content
end_with-Grown ending l = go (str_eq l.ending []) refl
  where
    go :
        (b : Bool)
        → str_eq l.ending [] ≡ b
        → Grown ending (render_line l) (render_line (if b then record l { ending = ending } else l))
    go false e = ([], inl refl, sym (append-nil (render_line l)))
    go true e = (
      ending,
      inr refl,
      ap (λ t. t ++ ending) (content-ending l ending)
          ∙ subst (λ (t : Bytes). content l ++ ending ≡ (content l ++ t) ++ ending)
              (sym ((str_eq_iff l.ending []).0 e))
              (ap (λ t. t ++ ending) (sym (append-nil (content l)))),
    )

end_last-Grown :
    (ending : Bytes) (ls : List Line)
    → Grown ending (render_lines ls) (render_lines (end_last ending ls))
unfolding end_last render_lines
end_last-Grown ending [] = ([], inl refl, refl)
end_last-Grown ending (l ∷ []) =
    let (added, i, e) = end_with-Grown ending l in
    (
      added,
      i,
      append-nil (render_line (end_with ending l))
          ∙ e
          ∙ ap (λ t. t ++ added) (sym (append-nil (render_line l))),
    )
end_last-Grown ending (l ∷ m ∷ ls) =
    let (added, i, e) = end_last-Grown ending (m ∷ ls) in
    (
      added,
      i,
      ap (λ t. render_line l ++ t) e
          ∙ sym (append_assoc (render_line l) (render_lines (m ∷ ls)) added),
    )

replacement-Grown :
    (f : File) (b : Block) (raw : Bytes)
    → Grown (dominant_ending f.lines) raw (render_lines (replacement f b raw))
unfolding replacement render
replacement-Grown f b raw = go (ltb b.end (length f.lines))
  where
    go :
        (late : Bool)
        → Grown (dominant_ending f.lines) raw (
            render_lines (
              if late
              then end_last (dominant_ending f.lines) (parse raw).lines
              else (parse raw).lines))
    go false = ([], inl refl, render-parse raw ∙ sym (append-nil raw))
    go true =
        let (added, i, e) = end_last-Grown (dominant_ending f.lines) (parse raw).lines in
        (added, i, e ∙ ap (λ t. t ++ added) (render-parse raw))

or_err-eq-ok : (x : EditError) {o : Option ℕ} {h : ℕ} → or_err x o ≡ ok h → o ≡ some h
or_err-eq-ok x {o = none} e = absurd (cc)
or_err-eq-ok x {o = some n} e = ap some (ok_eq e)

-- A block that is replaced becomes the raw text, byte for byte, but for a line break that may be
-- added to it; what stands before the header and behind the end of the block is kept.
pub replace_block-render :
    (f g : File) (b : Block) (raw : Bytes)
    → replace_block f b raw ≡ ok g
    → (h : ℕ) × (added : Bytes) × (inside b.header f.lines ≡ some h)
      × IsAdded (dominant_ending f.lines) added
      × (render g
          ≡ render_lines (take_lines h f.lines)
            ++ (raw ++ (added ++ render_lines (drop_lines b.end f.lines))))
unfolding replace_block render
replace_block-render f g b raw e =
    let (h, eh, e') =
      bind-eq-ok (or_err EditError.raw_block_header (inside b.header f.lines)) _ e in
    let (_, _, eg) = bind-eq-ok (check_raw (directives (parse raw).lines)) _ e' in
    let (added, i, r) = replacement-Grown f b raw in
    let before = take_lines h f.lines in
    let after = drop_lines b.end f.lines in
    (
      h,
      added,
      or_err-eq-ok EditError.raw_block_header eh,
      i,
      subst
          (λ (x : File).
            render_lines x.lines ≡ render_lines before ++ (raw ++ (added ++ render_lines after)))
          (ok_eq eg)
          (render_lines-append before (replacement f b raw ++ after)
            ∙ ap (λ t. render_lines before ++ t)
                (render_lines-append (replacement f b raw) after
                  ∙ ap (λ t. t ++ render_lines after) r
                  ∙ append_assoc raw added (render_lines after))),
    )
