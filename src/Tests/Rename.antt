-- ===== src/Tests/Rename.antt =====
-- internal/application/edit.go: `RenameHostAlias`, at concrete inputs.
use ssh_ui.Base.{
  ◌≡◌, refl, some, [], ◌∷◌, Bytes, codes, arith, ok, length, get_elem?, str_eq, has_prefix,
  contains_byte, contains_any,
}
use ssh_ui.Config.Token.{render_argument, needs_quotes}
use ssh_ui.Config.Line.{Line, directive, values, argument_values}
use ssh_ui.Config.Parse.{File}
use ssh_ui.Config.Block.{Block, host}
use ssh_ui.Edit.Build.{is_letter, render_value}
use ssh_ui.Edit.Lines.{rebuild_line}
use ssh_ui.Edit.Header.{
  host_header, inside, replace_first, rename_host_alias, check_alias, set_line,
}
use ssh_ui.Edit.Rename.{IsReplaced, rename_host_alias-header}

abbrev line_of : Bytes → Bytes → Line
line_of keyword value = record {
  kind = directive;
  text = [];
  indent = [];
  keyword = keyword;
  separator = codes " ";
  args = record { lead = []; raw = value; value = value } ∷ [];
  trailing = [];
  ending = codes "\n";
}

abbrev named : Bytes → File
named alias = record {
  lines = line_of (codes "Host") alias ∷ line_of (codes "Port") (codes "22") ∷ [];
}

abbrev block : Block
block = record { kind = host; header = some 0; start = 1; end = 2; patterns = []; criteria = [] }

rename_host_alias-runs :
    rename_host_alias (named (codes "a")) block (codes "a") (codes "b2") ≡ ok (named (codes "b2"))
unfolding rename_host_alias check_alias is_letter host_header inside replace_first values
    argument_values rebuild_line render_argument needs_quotes contains_any contains_byte has_prefix
    render_value str_eq set_line
rename_host_alias-runs = refl

rename_host_alias-header_example :
    (r : Line) × (get_elem? (named (codes "b2")).lines 0 ≡ some r)
    × IsReplaced (codes "a") (codes "b2") (values (line_of (codes "Host") (codes "a"))) (values r)
    × (get_elem? (named (codes "b2")).lines 1 ≡ get_elem? (named (codes "a")).lines 1)
    × (length (named (codes "b2")).lines ≡ length (named (codes "a")).lines)
unfolding host_header inside
rename_host_alias-header_example =
    rename_host_alias-header (named (codes "a")) (named (codes "b2")) block (codes "a") (codes "b2")
      0 1 (line_of (codes "Host") (codes "a")) refl refl refl (omega arith) rename_host_alias-runs
