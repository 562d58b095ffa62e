-- ===== src/Edit/Fields/Kept.antt =====
-- internal/application/edit.go: `ApplyFieldEdits` with edits that only set lines.
use ssh_ui.Base.{
  ℕ, zero, suc, ◌-◌, ◌≡◌, ◌≢◌, refl, sym, ap, subst, ◌∙◌, List, [], ◌∷◌, All, ok, ◌>>=◌, ok_eq,
  bind-eq-ok, or_err, get_elem?, length,
}
use ssh_ui.Config.Line.{Line}
use ssh_ui.Config.Parse.{File}
use ssh_ui.Config.Block.{Block}
use ssh_ui.Edit.Build.{edit_line_outside_block}
use ssh_ui.Edit.Lines.{rebuild_directive}
use ssh_ui.Edit.Header.{set_line}
use ssh_ui.Edit.Fields.{
  EditAction, set_action, FieldEdit, validate_field_edits, apply_set, apply_sets, removals,
  with_removal, remove_lines, apply_add, apply_adds, apply_field_edits,
}

-- edits that set lines, none of them the line at the index
abbrev pub SetsOthers : ℕ → List FieldEdit → Type 0
SetsOthers i es = All (λ (e : FieldEdit). (e.action ≡ set_action) × (e.line - 1 ≢ i)) es

pub get_elem?-set_line :
    (i j : ℕ) (l : Line) (ls : List Line) → j ≢ i → get_elem? (set_line j l ls) i ≡ get_elem? ls i
unfolding set_line
get_elem?-set_line i zero l [] h = refl
get_elem?-set_line i (suc j) l [] h = refl
get_elem?-set_line zero zero l (m ∷ ls) h = absurd (h refl)
get_elem?-set_line (suc i) zero l (m ∷ ls) h = refl
get_elem?-set_line zero (suc j) l (m ∷ ls) h = refl
get_elem?-set_line (suc i) (suc j) l (m ∷ ls) h = get_elem?-set_line i j l ls (λ e. h (ap suc e))

pub length-set_line : (j : ℕ) (l : Line) (ls : List Line) → length (set_line j l ls) ≡ length ls
unfolding set_line
length-set_line zero l [] = refl
length-set_line (suc j) l [] = refl
length-set_line zero l (m ∷ ls) = refl
length-set_line (suc j) l (m ∷ ls) = ap suc (length-set_line j l ls)

abbrev Same : ℕ → List Line → List Line → Type 0
Same i ls ms = (length ms ≡ length ls) × (get_elem? ms i ≡ get_elem? ls i)

apply_set-Same :
    (i : ℕ) (a : EditAction) (e : FieldEdit) (ls : List Line) {ms : List Line}
    → a ≡ set_action
    → e.line - 1 ≢ i
    → apply_set a e ls ≡ ok ms
    → Same i ls ms
unfolding apply_set
apply_set-Same i a e ls {ms} s n h =
    let (l, _, h') =
      bind-eq-ok (or_err edit_line_outside_block (get_elem? ls (e.line - 1))) _
        (subst (λ x. apply_set x e ls ≡ ok ms) s h) in
    let (r, _, h'') = bind-eq-ok (rebuild_directive l _ e.values) _ h' in
    subst (Same i ls) (ok_eq h'')
      (length-set_line (e.line - 1) r ls, get_elem?-set_line i (e.line - 1) r ls n)

apply_sets-Same :
    (i : ℕ) (es : List FieldEdit) (ls : List Line) {ms : List Line}
    → SetsOthers i es
    → apply_sets es ls ≡ ok ms
    → Same i ls ms
unfolding apply_sets
apply_sets-Same i [] ls h e = subst (Same i ls) (ok_eq e) (refl, refl)
apply_sets-Same i (x ∷ es) ls {ms} h e =
    let (mid, q, e') = bind-eq-ok (apply_set x.action x ls) _ e in
    let (n, g) = apply_set-Same i x.action x ls (h.0.0) (h.0.1) q in
    let (n', g') = apply_sets-Same i es mid h.1 e' in (n' ∙ n, g' ∙ g)

removals-sets : (i : ℕ) (es : List FieldEdit) → SetsOthers i es → removals es ≡ []
unfolding removals with_removal
removals-sets i [] h = refl
removals-sets i (e ∷ es) h =
    subst (λ a. with_removal a (e.line - 1) (removals es) ≡ []) (sym (h.0.0))
      (removals-sets i es h.1)

apply_adds-sets :
    (i : ℕ) (b : Block) (es : List FieldEdit) (f : File)
    → SetsOthers i es
    → apply_adds b es f ≡ ok f
unfolding apply_adds apply_add
apply_adds-sets i b [] f h = refl
apply_adds-sets i b (e ∷ es) f h =
    subst (λ a. (apply_add a b e f >>= λ f'. apply_adds b es f') ≡ ok f) (sym (h.0.0))
      (apply_adds-sets i b es f h.1)

-- Edits that only set lines leave the number of lines, and every line that none of them names.
pub apply_field_edits-kept :
    (f g : File) (b : Block) (es : List FieldEdit) (i : ℕ)
    → apply_field_edits f b es ≡ ok g
    → SetsOthers i es
    → (length g.lines ≡ length f.lines) × (get_elem? g.lines i ≡ get_elem? f.lines i)
unfolding apply_field_edits remove_lines
apply_field_edits-kept f g b es i e h =
    let (_, _, e') = bind-eq-ok (validate_field_edits f b [] es) _ e in
    let (ls, q, e'') = bind-eq-ok (apply_sets es f.lines) _ e' in
    let added : ok (record { lines = ls }) ≡ ok g =
      sym (apply_adds-sets i b es (record { lines = ls }) h)
      ∙ ap (λ rs. apply_adds b es (record { lines = remove_lines rs ls }))
          (sym (removals-sets i es h))
      ∙ e'' in
    subst (λ (x : File). Same i f.lines x.lines) (ok_eq added) (apply_sets-Same i es f.lines h q)
