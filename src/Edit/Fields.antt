-- ===== src/Edit/Fields.antt =====
-- internal/application/edit.go: `ApplyFieldEdits`. A line is counted from 1; a line below 1 is 0 here.
pub mod Kept
use ssh_ui.Base.{
  ℕ, zero, suc, ◌+◌, ◌-◌, Bool, true, false, not, ◌&&◌, ◌||◌, Option, none, some, List, [], ◌∷◌,
  ◌++◌, Bytes, codes, str_eq, ltb, leb, ◌==◌, if◌then◌else◌, length, get_elem?, Result, ok, err,
  ◌>>=◌, ◌>>◌, guard, or_err,
}
use ssh_ui.Config.Line.{Line}
use ssh_ui.Config.Parse.{File}
use ssh_ui.Config.Block.{Block, blocks, block_at, global_block}
use ssh_ui.Edit.Build.{
  EditError, unknown_edit_action, edit_line_outside_block, edit_line_not_directive,
  duplicate_edit_line, structural_keyword, is_structural, validate_keyword, build_directive_line,
}
use ssh_ui.Edit.Lines.{
  is_directive, rebuild_directive, append_position, block_indent, block_ending, insert_line,
}
use ssh_ui.Edit.Header.{set_line}

pub data EditAction : Type 0 where
  set_action add_action remove_action other_action : EditAction

pub record FieldEdit : Type 0 where
  pub action : EditAction
  pub line : ℕ
  pub keyword : Bytes
  pub values : List Bytes

unfoldable pub is_touched : ℕ → List ℕ → Bool
is_touched index [] = false
is_touched index (i ∷ is) = i == index || is_touched index is

-- what a line must be for a set or a removal
unfoldable pub check_line : Option Line → Result EditError (Unit {0})
unfolding is_directive is_structural
check_line none = err edit_line_outside_block
check_line (some l) = do
  guard (is_directive l) edit_line_not_directive
  guard (not (is_structural l.keyword)) structural_keyword

-- a set or a removal: the lines that are touched behind it
unfoldable pub check_target : File → Block → List ℕ → ℕ → Result EditError (List ℕ)
unfolding is_touched check_line
check_target f b touched zero = err edit_line_outside_block
check_target f b touched (suc index) = do
  guard (leb b.start index && (ltb index b.end && ltb index (length f.lines)))
      edit_line_outside_block
  guard (not (is_touched index touched)) duplicate_edit_line
  check_line (get_elem? f.lines index)
  ok (index ∷ touched)

unfoldable pub check_new_keyword : Bytes → Result EditError (Unit {0})
unfolding validate_keyword
check_new_keyword [] = ok tt
check_new_keyword keyword = validate_keyword keyword

unfoldable pub check_edit :
    File → Block → List ℕ → EditAction → FieldEdit → Result EditError (List ℕ)
unfolding check_target check_new_keyword validate_keyword
check_edit f b touched set_action e = do
  touched' ← check_target f b touched e.line
  check_new_keyword e.keyword
  ok touched'
check_edit f b touched remove_action e = check_target f b touched e.line
check_edit f b touched add_action e = do validate_keyword e.keyword; ok touched
check_edit f b touched other_action e = err unknown_edit_action

unfoldable pub validate_field_edits :
    File → Block → List ℕ → List FieldEdit → Result EditError (Unit {0})
unfolding check_edit
validate_field_edits f b touched [] = ok tt
validate_field_edits f b touched (e ∷ es) = do
  touched' ← check_edit f b touched e.action e
  validate_field_edits f b touched' es

unfoldable pub or_keyword : Bytes → Bytes → Bytes
or_keyword [] old = old
or_keyword keyword old = keyword

unfoldable pub apply_set : EditAction → FieldEdit → List Line → Result EditError (List Line)
apply_set set_action e ls = do
  l ← or_err edit_line_outside_block (get_elem? ls (e.line - 1))
  rebuilt ← rebuild_directive l (or_keyword e.keyword l.keyword) e.values
  ok (set_line (e.line - 1) rebuilt ls)
apply_set _ e ls = ok ls

-- the first loop: the lines that are set, in place
unfoldable pub apply_sets : List FieldEdit → List Line → Result EditError (List Line)
unfolding apply_set or_keyword set_line rebuild_directive
apply_sets [] ls = ok ls
apply_sets (e ∷ es) ls = do ls' ← apply_set e.action e ls; apply_sets es ls'

unfoldable pub insert_down : ℕ → List ℕ → List ℕ
insert_down n [] = n ∷ []
insert_down n (m ∷ ms) = if leb m n then n ∷ m ∷ ms else m ∷ insert_down n ms

unfoldable pub with_removal : EditAction → ℕ → List ℕ → List ℕ
with_removal remove_action index rest = insert_down index rest
with_removal _ index rest = rest

-- the indices of the removals, the largest first
unfoldable pub removals : List FieldEdit → List ℕ
unfolding with_removal insert_down
removals [] = []
removals (e ∷ es) = with_removal e.action (e.line - 1) (removals es)

unfoldable pub remove_line : ℕ → List Line → List Line
remove_line index [] = []
remove_line zero (l ∷ ls) = ls
remove_line (suc index) (l ∷ ls) = l ∷ remove_line index ls

unfoldable pub remove_lines : List ℕ → List Line → List Line
unfolding remove_line
remove_lines [] ls = ls
remove_lines (i ∷ is) ls = remove_lines is (remove_line i ls)

first_block : List Block → Block
first_block [] = global_block
first_block (b ∷ bs) = b

-- `staged.BlockAt(block.Header)`: the header -1 is the global block's alone
unfoldable pub block_of : File → Option ℕ → Block
unfolding first_block blocks block_at
block_of f none = first_block (blocks f)
block_of f (some h) = block_at f h

unfoldable pub apply_add : EditAction → Block → FieldEdit → File → Result EditError File
apply_add add_action b e f = do
  let current = block_of f b.header
  l ← build_directive_line (block_indent f current) e.keyword e.values (block_ending f current)
  ok (record { lines = insert_line (append_position f current) l f.lines })
apply_add _ b e f = ok f

-- the third loop: the lines that are added, each behind the last directive of the block
unfoldable pub apply_adds : Block → List FieldEdit → File → Result EditError File
unfolding apply_add block_of append_position insert_line block_indent block_ending
    build_directive_line
apply_adds b [] f = ok f
apply_adds b (e ∷ es) f = do f' ← apply_add e.action b e f; apply_adds b es f'

unfoldable pub apply_field_edits : File → Block → List FieldEdit → Result EditError File
unfolding validate_field_edits apply_sets removals remove_lines apply_adds
apply_field_edits f b es = do
  validate_field_edits f b [] es
  ls ← apply_sets es f.lines
  apply_adds b es (record { lines = remove_lines (removals es) ls })
