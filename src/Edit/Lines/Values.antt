-- ===== src/Edit/Lines/Values.antt =====
-- internal/application/edit.go: the values of a line that `rebuildLine` has made.
use ssh_ui.Base.{
  ◌≡◌, refl, sym, ap, subst, ◌∙◌, Bool, true, false, List, [], ◌∷◌, ◌++◌, Bytes, codes, has_prefix,
  if◌then◌else◌, ok, ok_eq, bind-eq-ok,
}
use ssh_ui.Config.Token.{Argument}
use ssh_ui.Config.Line.{Line, directive, argument_values, values}
use ssh_ui.Edit.Build.{render_value}
use ssh_ui.Edit.Build.ReadBack.{render_value-IsSpelling}
use ssh_ui.Edit.Lines.{split_comment_arguments, rebuild_values, place_comment, rebuild_line}

-- nothing, or arguments of which the first begins a comment
abbrev IsComment : List Argument → Type 0
IsComment [] = Unit
IsComment (a ∷ xs) = has_prefix a.raw (codes "#") ≡ true

abbrev EndsInComment : List Argument × List Argument → Type 0
EndsInComment parts = IsComment parts.1

split-IsComment : (xs : List Argument) → EndsInComment (split_comment_arguments xs)
unfolding split_comment_arguments
split-IsComment [] = tt
split-IsComment (a ∷ xs) = go (split-IsComment xs) (has_prefix a.raw (codes "#")) refl
  where
    go :
        IsComment (split_comment_arguments xs).1
        → (b : Bool) → has_prefix a.raw (codes "#") ≡ b
        → EndsInComment (
            if b
            then ([], a ∷ xs)
            else (a ∷ (split_comment_arguments xs).0, (split_comment_arguments xs).1))
    go rest true e = e
    go rest false e = rest

argument_values-comment : (cs : List Argument) → IsComment cs → argument_values cs ≡ []
unfolding argument_values
argument_values-comment [] h = refl
argument_values-comment (c ∷ cs) h = rw h refl

pub value-cons :
    (lead v : Bytes) (vs : List Bytes) (a : Argument) (xs : List Argument)
    → render_value lead v ≡ ok a
    → argument_values xs ≡ vs
    → argument_values (a ∷ xs) ≡ v ∷ vs
unfolding argument_values
value-cons lead v vs a xs q e =
    let (l, w, s, n) = render_value-IsSpelling lead v q in
    subst (λ b. (if b then [] else a.value ∷ argument_values xs) ≡ v ∷ vs) (sym n)
      (ap (λ x. x ∷ argument_values xs) w ∙ ap (λ x. v ∷ x) e)

rebuild_values-values :
    (lead : Bytes) (es cs : List Argument) (vs : List Bytes) {xs : List Argument}
    → IsComment cs
    → rebuild_values lead es vs ≡ ok xs
    → argument_values (xs ++ cs) ≡ vs
unfolding rebuild_values
rebuild_values-values lead es cs [] c e =
    subst (λ (x : List Argument). argument_values (x ++ cs) ≡ []) (ok_eq e)
      (argument_values-comment cs c)
rebuild_values-values lead [] cs (v ∷ vs) c h =
    let (a, q, h') = bind-eq-ok (render_value lead v) _ h in
    let (ys, r, e) = bind-eq-ok (rebuild_values (codes " ") [] vs) _ h' in
    subst (λ (x : List Argument). argument_values (x ++ cs) ≡ v ∷ vs) (ok_eq e)
      (value-cons lead v vs a (ys ++ cs) q (rebuild_values-values (codes " ") [] cs vs c r))
rebuild_values-values lead (p ∷ es) cs (v ∷ vs) c h =
    let (a, q, h') = bind-eq-ok (render_value p.lead v) _ h in
    let (ys, r, e) = bind-eq-ok (rebuild_values (codes " ") es vs) _ h' in
    subst (λ (x : List Argument). argument_values (x ++ cs) ≡ v ∷ vs) (ok_eq e)
      (value-cons p.lead v vs a (ys ++ cs) q (rebuild_values-values (codes " ") es cs vs c r))

place_comment-values :
    (xs cs : List Argument)
    → IsComment cs
    → argument_values (place_comment xs cs) ≡ argument_values (xs ++ cs)
unfolding place_comment argument_values
place_comment-values [] [] c = refl
place_comment-values [] (d ∷ cs) c = rw c refl
place_comment-values (x ∷ xs) cs c = refl

-- A directive line that is rebuilt has exactly the values that it was given, and keeps its
-- indentation, its ending and its trailing space.
pub rebuild_line-values :
    (l r : Line) (keyword : Bytes) (vs : List Bytes)
    → l.kind ≡ directive
    → rebuild_line l keyword vs ≡ ok r
    → (values r ≡ vs) × (r.indent ≡ l.indent) × (r.ending ≡ l.ending) × (r.trailing ≡ l.trailing)
unfolding rebuild_line values
rebuild_line-values l r keyword vs k h =
    let parts = split_comment_arguments l.args in
    let (xs, q, e) = bind-eq-ok (rebuild_values [] parts.0 vs) _ h in
    let c = split-IsComment l.args in
    subst
      (λ (x : Line).
        (values x ≡ vs) × (x.indent ≡ l.indent) × (x.ending ≡ l.ending) × (x.trailing ≡ l.trailing))
      (ok_eq e)
      (
        rw k (place_comment-values xs parts.1 c ∙ rebuild_values-values [] parts.0 parts.1 vs c q),
        refl,
        refl,
        refl,
      )
