-- ===== src/Edit/Build/ReadBack.antt =====
-- internal/application/edit.go: a line that is built and read again.
use ssh_ui.Base.{
  ◌≡◌, refl, sym, ap, subst, ◌∙◌, true, false, Option, none, some, List, [], ◌∷◌, ◌++◌, Bytes,
  codes, arith, has_prefix, all, ok, or_err, bind-eq-ok, ok_eq,
}
use mathlib.Core.List.{append-nil}
use ssh_ui.Config.Token.{Argument, is_space, render_argument}
use ssh_ui.Config.Token.Quote.{
  Spells, in_quotes, plain, AtBreak, IsNoComment, render_argument-Spells, Spelled, nil, cons,
  split_arguments-Spelled,
}
use ssh_ui.Config.Line.{Line, content, render_arguments, argument_values, values}
use ssh_ui.Config.Parse.{parse_line}
use ssh_ui.Config.Parse.Directive.{IsPlainStart, IsKeyword, parse_line_directive}
use ssh_ui.Edit.Build.{EditError, render_value, build_arguments, build_line}

abbrev pub IsSpelling : Bytes → Bytes → Argument → Type 0
IsSpelling lead v a = (a.lead ≡ lead) × (a.value ≡ v) × Spells a.raw v × IsNoComment a.raw

pub render_value-IsSpelling :
    (lead v : Bytes) {a : Argument} → render_value lead v ≡ ok a → IsSpelling lead v a
unfolding render_value
render_value-IsSpelling lead v {a} h = go (render_argument lead v) refl h
  where
    go :
        (o : Option Argument)
        → render_argument lead v ≡ o
        → or_err EditError.unquotable_value o ≡ ok a
        → IsSpelling lead v a
    go none e k = absurd (cc)
    go (some b) e k = render_argument-Spells lead v (e ∙ ap some (ok_eq k))

-- What `buildLine` makes of the values: a spelling of each, and the values again.
record IsBuilt (lead : Bytes) (vs : List Bytes) (xs : List Argument) : Type 0 where
  spelled : Spelled xs
  said : argument_values xs ≡ vs
  breaks : lead ≡ codes " " → AtBreak (render_arguments xs)

IsBuilt-nil : (lead : Bytes) → IsBuilt lead [] []
unfolding argument_values render_arguments
IsBuilt-nil lead = record { spelled = nil; said = refl; breaks = λ _. tt }

head_break : (lead rest : Bytes) → lead ≡ codes " " → AtBreak (lead ++ rest)
unfolding is_space
head_break lead rest e = rw e refl

IsBuilt-cons :
    (lead v : Bytes) (vs : List Bytes) (a : Argument) (xs : List Argument)
    → all is_space lead ≡ true
    → IsSpelling lead v a
    → IsBuilt (codes " ") vs xs
    → IsBuilt lead (v ∷ vs) (a ∷ xs)
unfolding argument_values render_arguments
IsBuilt-cons lead v vs a xs l (e, w, s, n) b = record {
  spelled =
      cons (subst (λ t. all is_space t ≡ true) (sym e) l) (subst (Spells a.raw) (sym w) s)
        (b.breaks refl) b.spelled;
  said = rw (n, w, b.said);
  breaks = λ k. head_break a.lead (a.raw ++ render_arguments xs) (e ∙ k);
}

build_arguments-IsBuilt :
    (lead : Bytes) (vs : List Bytes) {xs : List Argument}
    → all is_space lead ≡ true
    → build_arguments lead vs ≡ ok xs
    → IsBuilt lead vs xs
unfolding build_arguments
build_arguments-IsBuilt lead [] l h = subst (IsBuilt lead []) (ok_eq h) (IsBuilt-nil lead)
build_arguments-IsBuilt lead (v ∷ vs) {xs} l h =
    let (a, p, h') = bind-eq-ok (render_value lead v) _ h in
    let (ys, q, e) = bind-eq-ok (build_arguments (codes " ") vs) _ h' in
    subst (IsBuilt lead (v ∷ vs)) (ok_eq e) (
      IsBuilt-cons lead v vs a ys l (render_value-IsSpelling lead v p)
        (build_arguments-IsBuilt (codes " ") vs (unfold all is_space in refl) q))

-- The first argument does not run into the separator.
abbrev pub StartsPlain : List Bytes → Type 0
StartsPlain [] = Unit
StartsPlain (v ∷ vs) = has_prefix v (codes "=") ≡ false

Spells-IsPlainStart :
    {raw v : Bytes} (rest : Bytes)
    → Spells raw v
    → has_prefix v (codes "=") ≡ false
    → IsPlainStart (raw ++ rest)
unfolding is_space has_prefix all
Spells-IsPlainStart rest (in_quotes r q) h = rw r (refl, refl)
Spells-IsPlainStart {v = []} rest (plain r q n) h = absurd (n refl)
Spells-IsPlainStart {v = c ∷ v} rest (plain r q n) h = rw r (ground arith)

build_arguments-IsPlainStart :
    (vs : List Bytes) {xs : List Argument}
    → build_arguments [] vs ≡ ok xs
    → StartsPlain vs
    → IsPlainStart (render_arguments xs)
unfolding build_arguments render_arguments
build_arguments-IsPlainStart [] h p =
    subst (λ (x : List Argument). IsPlainStart (render_arguments x)) (ok_eq h) tt
build_arguments-IsPlainStart (v ∷ vs) h p =
    let (a, q, h') = bind-eq-ok (render_value [] v) _ h in
    let (ys, r, e) = bind-eq-ok (build_arguments (codes " ") vs) _ h' in
    let (l, w, s, n) = render_value-IsSpelling [] v q in
    subst (λ (x : List Argument). IsPlainStart (render_arguments x)) (ok_eq e)
      (subst (λ t. IsPlainStart (t ++ (a.raw ++ render_arguments ys))) (sym l)
        (Spells-IsPlainStart (render_arguments ys) s p))

-- A line built from a keyword and values is read back as it was built, with the same values,
-- unless the first value begins with an equals sign.
pub build_line-reads_back :
    (indent keyword : Bytes) (vs : List Bytes) (ending : Bytes) {l : Line}
    → all is_space indent ≡ true
    → IsKeyword keyword
    → StartsPlain vs
    → build_line indent keyword vs ending ≡ ok l
    → (parse_line (content l) ending ≡ l) × (values (parse_line (content l) ending) ≡ vs)
unfolding build_line
build_line-reads_back indent keyword vs ending {l} s k p h =
    let (xs, q, e) = bind-eq-ok (build_arguments [] vs) _ h in
    let b = build_arguments-IsBuilt [] vs (unfold all in refl) q in
    let read =
      parse_line_directive indent keyword (render_arguments xs) ending xs s k
        (build_arguments-IsPlainStart vs q p) (split_arguments-Spelled b.spelled) in
    let whole =
      ap (λ (t : Bytes). indent ++ (keyword ++ (codes " " ++ t)))
        (append-nil (render_arguments xs)) in
    let back = ap (λ (t : Bytes). parse_line t ending) whole ∙ read in
    subst
      (λ (x : Line).
        (parse_line (content x) ending ≡ x) × (values (parse_line (content x) ending) ≡ vs))
      (ok_eq e)
      (unfold content in back, unfold content in ap values back ∙ (unfold values in b.said))
