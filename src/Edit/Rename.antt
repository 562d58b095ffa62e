-- ===== src/Edit/Rename.antt =====
-- internal/application/edit.go: `RenameHostAlias`, seen from each line of the file.
use ssh_ui.Base.{
  Bool, true, false, ◌++◌, All, str_eq, str_eq_iff, arith, ℕ, zero, suc, ◌≡◌, ◌≢◌, refl, sym, ap,
  subst, ◌∙◌, Option, none, some, some_eq, List, [], ◌∷◌, Bytes, ok, ok_eq, bind-eq-ok, or_err,
  get_elem?, length,
}
use ssh_ui.Config.Line.{Line, directive, values}
use ssh_ui.Config.Parse.{File}
use ssh_ui.Config.Block.{Block}
use ssh_ui.Edit.Build.{EditError, raw_block_header, host_not_found}
use ssh_ui.Edit.Lines.{rebuild_line}
use ssh_ui.Edit.Lines.Values.{rebuild_line-values}
use ssh_ui.Edit.Header.{set_line, check_alias, host_header, replace_first, rename_host_alias}
use ssh_ui.Edit.Fields.Kept.{get_elem?-set_line, length-set_line}

get_elem?-set_line_self :
    (h : ℕ) (r l : Line) (ls : List Line)
    → get_elem? ls h ≡ some l
    → get_elem? (set_line h r ls) h ≡ some r
unfolding set_line
get_elem?-set_line_self h r l [] e = absurd (cc)
get_elem?-set_line_self zero r l (m ∷ ls) e = refl
get_elem?-set_line_self (suc h) r l (m ∷ ls) e = get_elem?-set_line_self h r l ls e

or_err-eq-ok {ℓ} :
    {A : Type ℓ} (x : EditError) (o : Option A) {a : A} → or_err x o ≡ ok a → o ≡ some a
or_err-eq-ok x none e = absurd (cc)
or_err-eq-ok x (some n) e = ap some (ok_eq e)

-- The second list is the first with `new` in the place of the first `old`.
abbrev pub IsReplaced : Bytes → Bytes → List Bytes → List Bytes → Type 0
IsReplaced old new vs ws =
    (before : List Bytes) × (after : List Bytes) × (vs ≡ before ++ (old ∷ after))
    × All (λ v. v ≢ old) before
    × (ws ≡ before ++ (new ∷ after))

replace_first-IsReplaced :
    (old new : Bytes) (vs ws : List Bytes)
    → replace_first old new vs ≡ some ws
    → IsReplaced old new vs ws
unfolding replace_first
replace_first-IsReplaced old new [] ws e = absurd (cc)
replace_first-IsReplaced old new (v ∷ vs) ws e =
    go (λ us. replace_first-IsReplaced old new vs us) (str_eq v old) refl e
  where
    Smaller : Type 0
    Smaller = (us : List Bytes) → replace_first old new vs ≡ some us → IsReplaced old new vs us

    rest :
        Smaller
        → (o : Option (List Bytes)) → replace_first old new vs ≡ o
        → v ≢ old
        → (elim o as (λ _. Option (List Bytes)) [ none ↦ none | some us ↦ some (v ∷ us) ]) ≡ some ws
        → IsReplaced old new (v ∷ vs) ws
    rest smaller none q n h = absurd (cc)
    rest smaller (some us) q n h =
        let (before, after, a, b, c) = smaller us q in
        (v ∷ before, after, ap (λ t. v ∷ t) a, (n, b), sym (some_eq h) ∙ ap (λ t. v ∷ t) c)

    go :
        Smaller
        → (b : Bool) → str_eq v old ≡ b
        → (elim b as (λ _. Option (List Bytes)) [
          | true ↦ some (new ∷ vs)
          | false ↦ elim (replace_first old new vs) as (λ _. Option (List Bytes)) [
            | none ↦ none
            | some us ↦ some (v ∷ us)
          ]
        ])
          ≡ some ws
        → IsReplaced old new (v ∷ vs) ws
    go smaller true q h = ([], vs, ap (λ t. t ∷ vs) ((str_eq_iff v old).0 q), tt, sym (some_eq h))
    go smaller false q h = rest smaller (replace_first old new vs) refl differs h
      where
        differs : v ≢ old
        differs = λ k. absurd (ground (arith, str_eq_iff v old))

-- When the header of the block is a directive line, a renaming that succeeds puts the new alias
-- in the place of the first value that is the old one, keeps the values before and behind it as
-- they are, and leaves every other line and their number.
pub rename_host_alias-header :
    (f g : File) (b : Block) (old new : Bytes) (h i : ℕ) (header : Line)
    → host_header b f.lines ≡ some h
    → get_elem? f.lines h ≡ some header
    → header.kind ≡ directive
    → h ≢ i
    → rename_host_alias f b old new ≡ ok g
    → (r : Line) × (get_elem? g.lines h ≡ some r)
      × IsReplaced old new (values header) (values r)
      × (get_elem? g.lines i ≡ get_elem? f.lines i)
      × (length g.lines ≡ length f.lines)
unfolding rename_host_alias
rename_host_alias-header f g b old new h i header eh el k n e =
    let (_, _, e1) = bind-eq-ok (check_alias new) _ e in
    let (h', q1, e2) = bind-eq-ok (or_err raw_block_header (host_header b f.lines)) _ e1 in
    let (l, q2, e3) = bind-eq-ok (or_err raw_block_header (get_elem? f.lines h')) _ e2 in
    let (ws, q3, e4) = bind-eq-ok (or_err host_not_found (replace_first old new (values l))) _ e3 in
    let (r, q4, e5) = bind-eq-ok (rebuild_line l l.keyword ws) _ e4 in
    let ph : h' ≡ h =
      some_eq (sym (or_err-eq-ok raw_block_header (host_header b f.lines) q1) ∙ eh) in
    let pl : l ≡ header = some_eq (
      sym (or_err-eq-ok raw_block_header (get_elem? f.lines h') q2)
      ∙ ap (get_elem? f.lines) ph
      ∙ el) in
    let v = rebuild_line-values l r l.keyword ws (ap (λ (x : Line). x.kind) pl ∙ k) q4 in
    subst
      (λ (x : File).
        (s : Line) × (get_elem? x.lines h ≡ some s)
        × IsReplaced old new (values header) (values s)
        × (get_elem? x.lines i ≡ get_elem? f.lines i)
        × (length x.lines ≡ length f.lines))
      (ap (λ j. record { lines = set_line j r f.lines }) (sym ph) ∙ ok_eq e5)
      (
        r,
        get_elem?-set_line_self h r header f.lines el,
        replace_first-IsReplaced old new (values header) (values r) (
            ap (λ (x : Line). replace_first old new (values x)) (sym pl)
            ∙ or_err-eq-ok host_not_found (replace_first old new (values l)) q3
            ∙ ap some (sym v.0)),
        get_elem?-set_line i h r f.lines n,
        length-set_line h r f.lines,
      )
