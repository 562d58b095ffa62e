-- ===== src/Groups/Region.antt =====
-- internal/application/region.go, and `DeclaredGroups` of groups.go: the generated lines of the entry
-- file that include the files of each group.
pub mod Found
pub mod Placed
pub mod Written
pub mod Declared
use ssh_ui.Base.{
  ℕ, zero, suc, ◌+◌, ◌-◌, Bool, true, false, not, ◌&&◌, ◌||◌, Option, none, some, List, [], ◌∷◌,
  ◌++◌, Bytes, codes, ◌==◌, leb, ltb, str_eq, has_prefix, if◌then◌else◌, length, get_elem?,
  trim_space, Result, ok, err, ◌>>=◌, ◌>>◌, guard,
}
use ssh_ui.Config.Line.{Line, LineKind, comment, directive, verbatim, values, equal_keyword}
use ssh_ui.Config.Parse.{File}
use ssh_ui.Config.Block.{block_at}
use ssh_ui.Config.Block.Condition.{condition}
use ssh_ui.Config.Comment.{is_comment, comment_run, slice}
use ssh_ui.Edit.Build.{EditError, edit_line_outside_block, build_line}
use ssh_ui.Edit.Lines.{is_directive, dominant_ending, insert_line}
use ssh_ui.Edit.Header.{take_lines, drop_lines, opens_block}
use ssh_ui.Groups.Path.{
  connections_directory, validate_group_name, group_include_pattern, has_suffix,
}

abbrev pub start_marker : Bytes
start_marker =
    codes
      "# >>> sshc groups (generated). Child groups first: OpenSSH keeps the first value it reads."

abbrev pub end_marker : Bytes
end_marker = codes "# <<< sshc groups"

abbrev pub note_line : Bytes
note_line =
    codes "# Edit through the UI; lines between these markers are replaced on the next save."

pub data RegionError : Type 0 where
  region_damaged include_already_present : RegionError
  edit_error : EditError → RegionError

unfoldable pub is_marker : Bytes → Line → Bool
unfolding is_comment
is_marker marker l = is_comment (some l) && str_eq (trim_space l.text) marker

-- the index of the first line that passes a test
unfoldable pub first_index : (Line → Bool) → ℕ → List Line → Option ℕ
first_index p index [] = none
first_index p index (l ∷ ls) = elim (p l) [
  | true ↦ some index
  | false ↦ first_index p (suc index) ls
]

-- the two markers that the loop of `FindRegion` has found
unfoldable pub region_of : Option ℕ → Option ℕ → Result RegionError (Option (ℕ × ℕ))
region_of (some start) (some end) =
    if ltb start end then ok (some (start, end)) else err region_damaged
region_of none none = ok none
region_of _ _ = err region_damaged

unfoldable pub find_region : File → Result RegionError (Option (ℕ × ℕ))
unfolding region_of first_index is_marker
find_region f =
    region_of (first_index (is_marker start_marker) 0 f.lines)
      (first_index (is_marker end_marker) 0 f.lines)

unfoldable pub found_region : Result RegionError (Option (ℕ × ℕ)) → Option (ℕ × ℕ)
found_region (ok r) = r
found_region (err e) = none

unfoldable pub generated_region : File → Option (ℕ × ℕ)
unfolding found_region find_region
generated_region f = found_region (find_region f)

clamp : Option (ℕ × ℕ) → ℕ → ℕ → ℕ × ℕ
clamp none start end = (start, end)
clamp (some (from, to)) start end =
    let end' = if ltb start from && ltb from end then from else end in
    if leb start to && ltb to end' then (to + 1, end') else (start, end')

unfoldable pub clamp_to_region : File → ℕ → ℕ → ℕ × ℕ
unfolding clamp generated_region
clamp_to_region f start end = clamp (generated_region f) start end

pub record RegionPlan : Type 0 where
  pub insert_at : ℕ
  pub replace_from : ℕ
  pub replace_to : ℕ
  pub replacing : Bool
  pub remove_from : ℕ
  pub remove_to : ℕ
  pub removing : Bool
  pub lines : List Line

abbrev pub no_plan : List Line → RegionPlan
no_plan lines = record {
  insert_at = 0;
  replace_from = 0;
  replace_to = 0;
  replacing = false;
  remove_from = 0;
  remove_to = 0;
  removing = false;
  lines = lines;
}

unfoldable pub group_patterns : List Bytes → List Bytes
group_patterns [] = []
group_patterns (g ∷ gs) = group_include_pattern g ∷ group_patterns gs

unfoldable pub lift_edit {ℓ} : {A : Type ℓ} → Result EditError A → Result RegionError A
lift_edit (ok a) = ok a
lift_edit (err e) = err (edit_error e)

-- the loop of `PlanRegion` over the patterns
unfoldable pub include_lines : Bytes → List Bytes → Result RegionError (List Line)
unfolding lift_edit build_line
include_lines ending [] = ok []
include_lines ending (p ∷ ps) = do
  l ← lift_edit (build_line [] (codes "Include") (p ∷ []) ending)
  rest ← include_lines ending ps
  ok (l ∷ rest)

unfoldable pub region_lines : Bytes → List Bytes → Bytes → Result RegionError (List Line)
unfolding include_lines group_patterns
region_lines ending groups groups_file = do
  includes ← include_lines ending (group_patterns groups ++ (groups_file ∷ []))
  ok (
      verbatim comment start_marker ending
      ∷ verbatim comment note_line ending
      ∷ (includes ++ (verbatim comment end_marker ending ∷ [])))

unfoldable pub is_one : Bytes → List Bytes → Bool
is_one s [] = false
is_one s (t ∷ ts) = str_eq t s || is_one s ts

claims : List Bytes → List Bytes → Bool
claims claimed [] = false
claims claimed (v ∷ vs) =
    is_one v claimed || (has_prefix v (connections_directory ++ codes "/") || claims claimed vs)

unfoldable pub is_include : Line → Bool
unfolding is_directive
is_include l = is_directive l && equal_keyword l.keyword (codes "Include")

-- the loop of `checkExistingIncludes`
unfoldable pub check_includes : File → List Bytes → ℕ → List Line → Result RegionError (Unit {0})
unfolding claims is_one is_include condition block_at
check_includes f claimed index [] = ok tt
check_includes f claimed index (l ∷ ls) = do
  guard
      (not
        (is_include l && (str_eq (condition f (block_at f index)) [] && claims claimed (values l))))
      include_already_present
  check_includes f claimed (suc index) ls

-- the loop of `regionPosition`
unfoldable pub position_loop : File → ℕ → List Line → ℕ
unfolding is_directive opens_block comment_run
position_loop f index [] = length f.lines
position_loop f index (l ∷ ls) = elim (is_directive l && opens_block l) [
  | true ↦ comment_run f index
  | false ↦ position_loop f (suc index) ls
]

unfoldable pub region_position : File → List Bytes → Bytes → Result RegionError ℕ
unfolding check_includes group_patterns position_loop
region_position f groups groups_file = do
  check_includes f (group_patterns groups ++ (groups_file ∷ [])) 0 f.lines
  ok (position_loop f 0 f.lines)

unfoldable pub without_lines : File → ℕ → ℕ → File
unfolding take_lines drop_lines
without_lines f from to = record { lines = take_lines from f.lines ++ drop_lines to f.lines }

-- by the region that is there; it stays in place only where no block governs it
unfoldable pub plan_for :
    File → List Bytes → Bytes → List Line → Option (ℕ × ℕ) → Result RegionError RegionPlan
unfolding region_position without_lines condition block_at
plan_for f groups groups_file lines none = do
  position ← region_position f groups groups_file
  ok (record (no_plan lines) { insert_at = position })
plan_for f groups groups_file lines (some (start, end)) =
    if str_eq (condition f (block_at f start)) []
    then ok
        (record (no_plan lines) { replace_from = start; replace_to = end + 1; replacing = true })
    else (do
      position ← region_position (without_lines f start (end + 1)) groups groups_file
      ok (record (no_plan lines) {
        remove_from = start;
        remove_to = end + 1;
        removing = true;
        insert_at = position;
      }))

unfoldable pub plan_region : File → List Bytes → Bytes → Result RegionError RegionPlan
unfolding find_region region_lines plan_for
plan_region f groups groups_file = do
  found ← find_region f
  lines ← region_lines (dominant_ending f.lines) groups groups_file
  plan_for f groups groups_file lines found

-- the lines, each behind the one before it
unfoldable pub insert_lines : ℕ → List Line → List Line → List Line
unfolding insert_line
insert_lines position [] ls = ls
insert_lines position (new ∷ rest) ls =
    insert_lines (suc position) rest (insert_line position new ls)

unfoldable pub is_span : ℕ → ℕ → List Line → Bool
is_span from to ls = not (ltb (length ls) to || ltb to from)

unfoldable pub apply_removal : RegionPlan → List Line → Result RegionError (List Line)
unfolding is_span
apply_removal plan ls =
    if plan.removing
    then (do
      guard (is_span plan.remove_from plan.remove_to ls) (edit_error edit_line_outside_block)
      ok (take_lines plan.remove_from ls ++ drop_lines plan.remove_to ls))
    else ok ls

unfoldable pub apply_lines : RegionPlan → List Line → Result RegionError (List Line)
unfolding is_span insert_lines
apply_lines plan ls =
    if plan.replacing
    then (do
      guard (is_span plan.replace_from plan.replace_to ls) (edit_error edit_line_outside_block)
      ok (take_lines plan.replace_from ls ++ (plan.lines ++ drop_lines plan.replace_to ls)))
    else (do
      guard (leb plan.insert_at (length ls)) (edit_error edit_line_outside_block)
      ok (insert_lines plan.insert_at plan.lines ls))

unfoldable pub apply_region : File → RegionPlan → Result RegionError File
unfolding apply_removal apply_lines take_lines drop_lines
apply_region f plan = do
  rest ← apply_removal plan f.lines
  lines ← apply_lines plan rest
  ok (record { lines = lines })
