-- ===== src/Groups/Region/Written.antt =====
-- internal/application/region.go: the lines of a region, and where they stand once they are written.
use ssh_ui.Base.{
  ℕ, ◌+◌, ◌≡◌, refl, sym, ap, subst, ◌∙◌, true, false, none, some, List, [], ◌∷◌, ◌++◌, arith,
  length, Bytes, codes, str_eq, str_eq_iff, str_eq_refl, length-append, has_prefix, Result, ok, err,
  ok_eq, bind-eq-ok, Bool-cases, inl, inr,
}
use mathlib.Core.List.{append_assoc, append-nil}
use ssh_ui.Config.Line.{Line, comment, verbatim, values, argument_values, equal_keyword}
use ssh_ui.Edit.Build.{EditError, build_arguments, render_value, build_line}
use ssh_ui.Edit.Lines.Values.{value-cons}
use ssh_ui.Groups.Path.{
  connections_directory, validate_group_name, group_include_pattern, has_suffix,
}
use ssh_ui.Groups.Region.{
  start_marker, end_marker, note_line, is_marker, group_patterns, lift_edit, include_lines,
  region_lines, is_one, is_include,
}
use ssh_ui.Groups.Declaration.{
  cut_prefix, cut_suffix, group_of_value, add_name, declared_values, declared_lines,
}
use ssh_ui.Groups.Region.Found.{Free, is_start, is_end}

-- each name is valid and differs from those before it
abbrev pub IsFresh : List Bytes → List Bytes → Type 0
IsFresh names [] = Unit
IsFresh names (g ∷ gs) =
    (validate_group_name g ≡ true) × (is_one g names ≡ false) × IsFresh (names ++ (g ∷ [])) gs

has_suffix-append : (s t : Bytes) → has_suffix (s ++ t) t ≡ true
unfolding has_suffix str_eq
has_suffix-append [] [] = refl
has_suffix-append [] (c ∷ t) = rw (str_eq_refl (c ∷ t)) refl
has_suffix-append (c ∷ s) t = elim (Bool-cases (str_eq (c ∷ (s ++ t)) t)) [
  | inl e ↦ rw e refl
  | inr e ↦ rw (e, has_suffix-append s t) refl
]

abbrev suffix : Bytes
suffix = codes "/*.conf"

not_suffix : (c : ℕ) (s : Bytes) → str_eq (c ∷ (s ++ suffix)) suffix ≡ false
not_suffix c s = elim (Bool-cases (str_eq (c ∷ (s ++ suffix)) suffix)) [
  | inl e ↦
      let same : length (c ∷ (s ++ suffix)) ≡ length suffix =
        ap length ((str_eq_iff (c ∷ (s ++ suffix)) suffix).0 e) in
      let longer : length (s ++ suffix) ≡ length s + length suffix = length-append s suffix in
      absurd (omega arith)
  | inr e ↦ e
]

cut_suffix-append : (s : Bytes) → cut_suffix (s ++ suffix) suffix ≡ s
unfolding cut_suffix str_eq
cut_suffix-append [] = refl
cut_suffix-append (c ∷ s) = rw (not_suffix c s, cut_suffix-append s) refl

group_of_value-some :
    (v g : Bytes)
    → has_prefix v (connections_directory ++ codes "/") ≡ true
    → has_suffix v suffix ≡ true
    → cut_suffix (cut_prefix v (connections_directory ++ codes "/")) suffix ≡ g
    → group_of_value v ≡ some g
unfolding group_of_value
group_of_value-some v g p s c = rw (p, s) (ap some c)

group_of_value-pattern : (g : Bytes) → group_of_value (group_include_pattern g) ≡ some g
unfolding group_include_pattern has_prefix cut_prefix
group_of_value-pattern g =
    group_of_value-some (group_include_pattern g) g refl
      (has_suffix-append (connections_directory ++ (codes "/" ++ g)) suffix) (cut_suffix-append g)

add_name-fresh :
    (names : List Bytes) (g : Bytes)
    → validate_group_name g ≡ true
    → is_one g names ≡ false
    → add_name names (some g) ≡ names ++ (g ∷ [])
unfolding add_name
add_name-fresh names g v f = rw (v, f) refl

group_of_value-other :
    (v : Bytes)
    → has_prefix v (connections_directory ++ codes "/") ≡ false
    → group_of_value v ≡ none
unfolding group_of_value
group_of_value-other v h = rw h refl

-- The patterns of a region name its groups, in their order.
pub declared_values-group_patterns :
    (names gs : List Bytes) (groups_file : Bytes)
    → IsFresh names gs
    → has_prefix groups_file (connections_directory ++ codes "/") ≡ false
    → declared_values names (group_patterns gs ++ (groups_file ∷ [])) ≡ names ++ gs
unfolding declared_values group_patterns
declared_values-group_patterns names [] file f h =
    ap (add_name names) (group_of_value-other file h) ∙ sym (append-nil names)
declared_values-group_patterns names (g ∷ gs) file (v, o, f) h =
    let rest = group_patterns gs ++ (file ∷ []) in
    ap (λ o. declared_values (add_name names o) rest) (group_of_value-pattern g)
    ∙ ap (λ ns. declared_values ns rest) (add_name-fresh names g v o)
    ∙ declared_values-group_patterns (names ++ (g ∷ [])) gs file f h
    ∙ append_assoc names (g ∷ []) gs

-- a line of the region that is no marker, and includes nothing but one pattern
pub record Includes (ending p : Bytes) (l : Line) : Type 0 where
  pub not_start : is_start l ≡ false
  pub not_end : is_end l ≡ false
  pub ends : l.ending ≡ ending
  pub including : is_include l ≡ true
  pub value : values l ≡ p ∷ []

build_line-Includes :
    (ending p : Bytes) {l : Line}
    → build_line [] (codes "Include") (p ∷ []) ending ≡ ok l
    → Includes ending p l
unfolding build_line build_arguments values is_marker is_include argument_values equal_keyword
build_line-Includes ending p h =
    let (xs, q, e) = bind-eq-ok (build_arguments [] (p ∷ [])) _ h in
    let (a, r, q') = bind-eq-ok (render_value [] p) _ q in
    subst (Includes ending p) (ok_eq e) (record {
      not_start = refl;
      not_end = refl;
      ends = refl;
      including = refl;
      value = subst (λ ys. argument_values ys ≡ p ∷ []) (ok_eq q') (value-cons [] p [] a [] r refl);
    })

-- the lines that include the patterns of a list
pub data IncludesAll (ending : Bytes) : List Bytes → List Line → Type 0 where
  nil : IncludesAll ending [] []
  cons :
      {p : Bytes} {l : Line} {ps : List Bytes} {ls : List Line}
      → Includes ending p l
      → IncludesAll ending ps ls
      → IncludesAll ending (p ∷ ps) (l ∷ ls)

lift_edit-ok : {A : Type 0} (r : Result EditError A) {a : A} → lift_edit r ≡ ok a → r ≡ ok a
unfolding lift_edit
lift_edit-ok (ok a) h = ap ok (ok_eq h)
lift_edit-ok (err e) h = absurd (cc)

include_lines-IncludesAll :
    (ending : Bytes) (ps : List Bytes) {ls : List Line}
    → include_lines ending ps ≡ ok ls
    → IncludesAll ending ps ls
unfolding include_lines
include_lines-IncludesAll ending [] h = subst (IncludesAll ending []) (ok_eq h) nil
include_lines-IncludesAll ending (p ∷ ps) h =
    let (l, q, h') = bind-eq-ok (lift_edit (build_line [] (codes "Include") (p ∷ []) ending)) _ h in
    let (ls, r, e) = bind-eq-ok (include_lines ending ps) _ h' in
    subst (IncludesAll ending (p ∷ ps)) (ok_eq e) (
      cons (build_line-Includes ending p (lift_edit-ok _ q))
        (include_lines-IncludesAll ending ps r))

pub IncludesAll-Free :
    {ending : Bytes} {ps : List Bytes} {ls : List Line} → IncludesAll ending ps ls → Free is_end ls
IncludesAll-Free nil = tt
IncludesAll-Free (cons i is) = (i.not_end, IncludesAll-Free is)

pub declared_lines-IncludesAll :
    {ending : Bytes} {ps : List Bytes} {ls : List Line} (names : List Bytes)
    → IncludesAll ending ps ls
    → declared_lines names ls ≡ declared_values names ps
unfolding declared_lines declared_values
declared_lines-IncludesAll names nil = refl
declared_lines-IncludesAll names (cons {p} {l} {ps} {ls} i is) =
    rw (i.including, i.value) (declared_lines-IncludesAll (add_name names (group_of_value p)) is)

-- What `region_lines` makes: the two comments, the lines that include, and the end.
pub record IsRegion (ending : Bytes) (gs : List Bytes) (file : Bytes) (ls : List Line)
    : Type 0 where
  pub includes : List Line
  pub shape :
      ls
      ≡ verbatim comment start_marker ending
        ∷ verbatim comment note_line ending
        ∷ (includes ++ (verbatim comment end_marker ending ∷ []))
  pub including_all : IncludesAll ending (group_patterns gs ++ (file ∷ [])) includes

pub region_lines-IsRegion :
    (ending : Bytes) (gs : List Bytes) (file : Bytes) {ls : List Line}
    → region_lines ending gs file ≡ ok ls
    → IsRegion ending gs file ls
unfolding region_lines
region_lines-IsRegion ending gs file h =
    let (is, q, e) = bind-eq-ok (include_lines ending (group_patterns gs ++ (file ∷ []))) _ h in
    record {
      includes = is;
      shape = sym (ok_eq e);
      including_all = include_lines-IncludesAll ending _ q;
    }
