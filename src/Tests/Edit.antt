-- ===== src/Tests/Edit.antt =====
-- internal/application/edit.go, at concrete inputs.
use ssh_ui.Base.{
  ℕ, ◌≡◌, refl, some, [], ◌∷◌, ◌++◌, Bytes, codes, arith, ok, length, get_elem?, str_eq, has_prefix,
  contains_byte, contains_any, all, to_lower, ascii_lower, cut_byte, take_while, drop_while,
}
use ssh_ui.Config.Token.{is_space, render_argument, needs_quotes, split_arguments}
use ssh_ui.Config.Line.{Line, directive, equal_keyword, fold_case}
use ssh_ui.Config.Parse.{
  File, parse, render, render_lines, split_line, parse_line, parse_loop, cut_return,
  split_separator,
}
use ssh_ui.Config.Block.{Block, host}
use ssh_ui.Edit.Build.{validate_keyword, is_letter, is_structural, render_value}
use ssh_ui.Edit.Lines.{dominant_ending, rebuild_line, is_directive}
use ssh_ui.Edit.Header.{
  take_lines, drop_lines, inside, replace_block, directives, check_raw, count_headers, opens_block,
  set_line,
}
use ssh_ui.Edit.Header.Replace.{IsAdded, replace_block-render}
use ssh_ui.Edit.Fields.{FieldEdit, set_action, apply_field_edits}
use ssh_ui.Edit.Fields.Kept.{apply_field_edits-kept}

abbrev line_of : Bytes → Bytes → Bytes → Line
line_of indent keyword value = record {
  kind = directive;
  text = [];
  indent = indent;
  keyword = keyword;
  separator = codes " ";
  args = record { lead = []; raw = value; value = value } ∷ [];
  trailing = [];
  ending = codes "\n";
}

abbrev with_port : Bytes → File
with_port port = record {
  lines = line_of [] (codes "Host") (codes "a") ∷ line_of (codes "  ") (codes "Port") port ∷ [];
}

abbrev block : Block
block = record { kind = host; header = some 0; start = 1; end = 2; patterns = []; criteria = [] }

abbrev set_port : FieldEdit
set_port = record { action = set_action; line = 2; keyword = []; values = codes "2222" ∷ [] }

abbrev no_bytes : Bytes
no_bytes = []

rebuild_line-runs :
    rebuild_line (line_of [] (codes "Port") (codes "22")) (codes "Port") (codes "23" ∷ [])
    ≡ ok (line_of [] (codes "Port") (codes "23"))
unfolding rebuild_line render_argument needs_quotes contains_any contains_byte has_prefix
    render_value
rebuild_line-runs = refl

apply_field_edits-runs :
    apply_field_edits (with_port (codes "22")) block (set_port ∷ []) ≡ ok (with_port (codes "2222"))
unfolding apply_field_edits validate_keyword is_letter is_structural rebuild_line render_argument
    needs_quotes contains_any contains_byte has_prefix render_value str_eq to_lower set_line
    is_directive
apply_field_edits-runs = refl

apply_field_edits-kept_example :
    (length (with_port (codes "2222")).lines ≡ length (with_port (codes "22")).lines)
    × (get_elem? (with_port (codes "2222")).lines 0 ≡ get_elem? (with_port (codes "22")).lines 0)
apply_field_edits-kept_example =
    apply_field_edits-kept (with_port (codes "22")) (with_port (codes "2222")) block (set_port ∷ [])
      0 apply_field_edits-runs ((refl, omega arith), tt)

abbrev one_host : File
one_host = record { lines = line_of [] (codes "Host") (codes "b") ∷ [] }

replace_block-runs : replace_block (with_port (codes "22")) block (codes "Host b\n") ≡ ok one_host
unfolding replace_block parse parse_loop parse_line split_line split_arguments inside directives
    check_raw count_headers opens_block equal_keyword fold_case str_eq take_lines drop_lines
    cut_byte take_while drop_while is_space is_directive has_prefix all ascii_lower cut_return
    split_separator
replace_block-runs = refl

replace_block-render_example :
    (h : ℕ) × (added : Bytes) × (inside (some 0) (with_port (codes "22")).lines ≡ some h)
    × IsAdded (dominant_ending (with_port (codes "22")).lines) added
    × (render one_host
        ≡ render_lines (take_lines h (with_port (codes "22")).lines)
          ++ (codes "Host b\n"
              ++ (added ++ render_lines (drop_lines 2 (with_port (codes "22")).lines))))
replace_block-render_example =
    replace_block-render (with_port (codes "22")) one_host block (codes "Host b\n")
      replace_block-runs
