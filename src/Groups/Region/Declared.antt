-- ===== src/Groups/Region/Declared.antt =====
-- internal/application/region.go and `DeclaredGroups` of groups.go: the groups of a file whose region
-- has been written.
use ssh_ui.Base.{
  ℕ, suc, ◌+◌, ◌-◌, ◌≤◌, ◌≡◌, refl, sym, ap, subst, ◌∙◌, Bool, true, false, Option, none, some,
  List, [], ◌∷◌, ◌++◌, arith, leb, leb→le, if◌then◌else◌, length, All, All-append, Bytes, codes,
  str_eq, has_prefix, trim_space, trim_right, drop_while, is_white, NonEmpty, Result, ok, ok_eq,
  guard, ◌>>=◌, bind-eq-ok,
}
use mathlib.Core.List.{append_assoc}
use ssh_ui.Config.Line.{Line, comment, verbatim}
use ssh_ui.Config.Parse.{File}
use ssh_ui.Config.Comment.{slice}
use ssh_ui.Config.Block.{block_at}
use ssh_ui.Config.Block.Condition.{condition}
use ssh_ui.Edit.Lines.{dominant_ending}
use ssh_ui.Edit.Header.{take_lines, drop_lines}
use ssh_ui.Groups.Path.{connections_directory}
use ssh_ui.Groups.Region.{
  start_marker, end_marker, note_line, RegionError, RegionPlan, no_plan, find_region, region_lines,
  region_position, without_lines, is_span, is_include, is_marker, plan_for, plan_region,
  insert_lines, apply_removal, apply_lines, apply_region,
}
use ssh_ui.Groups.Declaration.{declared_lines, declared_in, declared_groups}
use ssh_ui.Groups.Region.Found.{
  Free, is_start, is_end, find_region-none, find_region-some, generated_region-append, slice-append,
}
use ssh_ui.Groups.Region.Placed.{
  IsEnded, dominant_ending-some, insert_line-IsPlaced, insert_lines-shape,
}
use ssh_ui.Groups.Region.Written.{
  IncludesAll, nil, cons, IncludesAll-Free, IsFresh, declared_values-group_patterns,
  declared_lines-IncludesAll, IsRegion, region_lines-IsRegion,
}

between : (n m : ℕ) → (n + m) - n ≡ m
between n m = omega arith

declared_groups-around :
    (pre : List Line) (s : Line) (inner : List Line) (e : Line) (post : List Line)
    → Free is_start pre
    → Free is_end pre
    → is_start s ≡ true
    → Free is_end (s ∷ inner)
    → is_end e ≡ true
    → declared_groups (record { lines = pre ++ (s ∷ (inner ++ (e ∷ post))) })
      ≡ declared_lines [] (s ∷ inner)
unfolding declared_groups declared_in
declared_groups-around pre s inner e post fs fe hs fi he =
    let ls = pre ++ (s ∷ (inner ++ (e ∷ post))) in
    let n = length pre in
    ap (declared_in ls) (generated_region-append pre s inner e post fs fe hs fi he)
    ∙ ap (λ k. declared_lines [] (slice ls n k)) (between n (suc (length inner)))
    ∙ ap (declared_lines []) (slice-append pre (s ∷ inner) (e ∷ post))

module _ (ending : Bytes) (gs : List Bytes) (file : Bytes) (fresh : IsFresh [] gs)
    (outside : has_prefix file (connections_directory ++ codes "/") ≡ false) where
  -- A region between lines without markers declares its groups.
  declared_groups-IsRegion :
      (pre post : List Line) {ls : List Line}
      → IsRegion ending gs file ls
      → Free is_start pre
      → Free is_end pre
      → declared_groups (record { lines = pre ++ (ls ++ post) }) ≡ gs
  unfolding is_marker declared_lines is_include str_eq trim_space trim_right drop_while is_white
  declared_groups-IsRegion pre post r fs fe =
      let s = verbatim comment start_marker ending in
      let n = verbatim comment note_line ending in
      let e = verbatim comment end_marker ending in
      ap (λ ls. declared_groups (record { lines = pre ++ (ls ++ post) })) r.shape
      ∙ ap (λ ls. declared_groups (record { lines = pre ++ (s ∷ n ∷ ls) }))
          (append_assoc r.includes (e ∷ []) post)
      ∙ declared_groups-around pre s (n ∷ r.includes) e post fs fe refl
          (refl, (refl, IncludesAll-Free r.including_all)) refl
      ∙ declared_lines-IncludesAll [] r.including_all
      ∙ declared_values-group_patterns [] gs file fresh outside

IncludesAll-IsEnded :
    {ending : Bytes} {ps : List Bytes} {ls : List Line}
    → str_eq ending [] ≡ false
    → IncludesAll ending ps ls
    → All IsEnded ls
IncludesAll-IsEnded h nil = tt
IncludesAll-IsEnded h (cons i is) =
    (subst (λ e. str_eq e [] ≡ false) (sym i.ends) h, IncludesAll-IsEnded h is)

IsRegion-IsEnded :
    {ending : Bytes} {gs : List Bytes} {file : Bytes} {ls : List Line}
    → str_eq ending [] ≡ false
    → IsRegion ending gs file ls
    → All IsEnded ls
IsRegion-IsEnded {ending} h r = subst (All IsEnded) (sym r.shape) (
  h,
  (
    h,
    All-append IsEnded r.includes (verbatim comment end_marker ending ∷ [])
        (IncludesAll-IsEnded h r.including_all) (h, tt),
  ),
)

-- What a plan that removes nothing is, and where it puts the lines.
data IsPlan (f : File) (lines : List Line) : RegionPlan → Type 0 where
  inserting :
      (position : ℕ)
      → Free is_start f.lines
      → Free is_end f.lines
      → IsPlan f lines (record (no_plan lines) { insert_at = position })
  replacing :
      (start end : ℕ)
      → Free is_start (take_lines start f.lines)
      → Free is_end (take_lines start f.lines)
      → IsPlan f lines
          (record (no_plan lines) { replace_from = start; replace_to = end + 1; replacing = true })

-- a plan that may stay in place, or one that removes
abbrev pick :
    Bool → RegionPlan → Result RegionError ℕ → (ℕ → RegionPlan) → Result RegionError RegionPlan
pick b stay m move = if b then ok stay else (m >>= λ position. ok (move position))

pick-stay :
    (b : Bool) (stay : RegionPlan) (m : Result RegionError ℕ) (move : ℕ → RegionPlan)
    {plan : RegionPlan}
    → ((position : ℕ) → (move position).removing ≡ true)
    → pick b stay m move ≡ ok plan
    → plan.removing ≡ false
    → stay ≡ plan
pick-stay true stay m move r h k = ok_eq h
pick-stay false stay m move r h k =
    let (position, q, e) = bind-eq-ok m _ h in
    let same : (move position).removing ≡ false =
      ap (λ (p : RegionPlan). p.removing) (ok_eq e) ∙ k in
    absurd (cc (r position, same))

plan_for-IsPlan :
    (f : File) (gs : List Bytes) (file : Bytes) (lines : List Line) (found : Option (ℕ × ℕ))
    {plan : RegionPlan}
    → find_region f ≡ ok found
    → plan_for f gs file lines found ≡ ok plan
    → plan.removing ≡ false
    → IsPlan f lines plan
unfolding plan_for
plan_for-IsPlan f gs file lines none q h k =
    let (position, r, e) = bind-eq-ok (region_position f gs file) _ h in
    let (fs, fe) = find_region-none f q in
    subst (IsPlan f lines) (ok_eq e) (inserting position fs fe)
plan_for-IsPlan f gs file lines (some (start, end)) {plan} q h k =
    let (fs, fe) = find_region-some f start end q in
    subst (IsPlan f lines)
      (pick-stay (str_eq (condition f (block_at f start)) []) _
        (region_position (without_lines f start (end + 1)) gs file) _ (λ position. refl) h k)
      (replacing start end fs fe)

-- The lines of a plan stand between lines without markers once it is applied.
record IsWritten (lines written : List Line) : Type 0 where
  before : List Line
  behind : List Line
  shape : written ≡ before ++ (lines ++ behind)
  free : Free is_start before × Free is_end before

guard-true : (b : Bool) (e : RegionError) → guard b e ≡ ok tt → b ≡ true
guard-true true e h = refl
guard-true false e h = absurd (cc)

insert_lines-IsWritten :
    (position : ℕ) (lines ls : List Line)
    → position ≤ length ls
    → NonEmpty lines
    → All IsEnded lines
    → Free is_start ls
    → Free is_end ls
    → IsWritten lines (insert_lines position lines ls)
insert_lines-IsWritten position [] ls h n e fs fe = absurd n
insert_lines-IsWritten position (new ∷ news) ls h n e fs fe =
    let p = insert_line-IsPlaced position new ls h in
    record {
      before = p.before;
      behind = p.behind;
      shape = insert_lines-shape position new news ls p e;
      free = (p.free start_marker fs, p.free end_marker fe);
    }

apply_region-IsWritten :
    (f g : File) (lines : List Line) (plan : RegionPlan)
    → IsPlan f lines plan
    → NonEmpty lines
    → All IsEnded lines
    → apply_region f plan ≡ ok g
    → IsWritten lines g.lines
unfolding apply_region apply_removal apply_lines
apply_region-IsWritten f g lines _ (inserting position fs fe) n e h =
    let (written, q, s) = bind-eq-ok _ (λ (ls : List Line). ok (record { lines = ls })) h in
    let (u, c, r) = bind-eq-ok (guard (leb position (length f.lines)) _) _ q in
    subst (λ (x : File). IsWritten lines x.lines) (ok_eq s)
      (subst (IsWritten lines) (ok_eq r)
        (insert_lines-IsWritten position lines f.lines (leb→le _ _ (guard-true _ _ c)) n e fs fe))
apply_region-IsWritten f g lines _ (replacing start end fs fe) n e h =
    let (written, q, s) = bind-eq-ok _ (λ (ls : List Line). ok (record { lines = ls })) h in
    let (u, c, r) = bind-eq-ok (guard (is_span start (end + 1) f.lines) _) _ q in
    subst (λ (x : File). IsWritten lines x.lines) (ok_eq s)
      (record {
        before = take_lines start f.lines;
        behind = drop_lines (end + 1) f.lines;
        shape = sym (ok_eq r);
        free = (fs, fe);
      })

-- The groups are those that the file declares once a plan for them is applied, where they are
-- valid and distinct, the file of the metadata's groups lies outside the directory of the groups,
-- and the plan does not move a region that a block governs.
pub declared_groups-apply_region :
    (f g : File) (gs : List Bytes) (file : Bytes) (plan : RegionPlan)
    → IsFresh [] gs
    → has_prefix file (connections_directory ++ codes "/") ≡ false
    → plan_region f gs file ≡ ok plan
    → plan.removing ≡ false
    → apply_region f plan ≡ ok g
    → declared_groups g ≡ gs
unfolding plan_region
declared_groups-apply_region f g gs file plan fresh outside h k a =
    let ending = dominant_ending f.lines in
    let (found, q, h') = bind-eq-ok (find_region f) _ h in
    let (lines, r, h'') = bind-eq-ok (region_lines ending gs file) _ h' in
    let region = region_lines-IsRegion ending gs file r in
    let w =
      apply_region-IsWritten f g lines plan (plan_for-IsPlan f gs file lines found q h'' k)
        (subst NonEmpty (sym region.shape) tt)
        (IsRegion-IsEnded (dominant_ending-some f.lines) region) a in
    ap (λ ls. declared_groups (record { lines = ls })) w.shape
    ∙ declared_groups-IsRegion ending gs file fresh outside w.before w.behind region w.free.0
        w.free.1
