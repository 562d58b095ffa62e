-- ===== src/Tests/Config.antt =====
-- internal/config and internal/application/edit.go, at concrete inputs.
use ssh_ui.Base.{
  ◌≡◌, ◌≢◌, refl, true, none, [], ◌∷◌, All, Bytes, codes, split_byte, arith, Result, ok,
  trim_prefix, has_prefix, contains_byte, contains_any, all, cut_byte, take_while, drop_while,
  trim_right, trim_suffix, inl,
}
use ssh_ui.Config.Token.{
  is_space, render_argument, needs_quotes, split_arguments, arguments, unfinished,
}
use ssh_ui.Config.Token.Scan.{split_arguments-ne-unfinished}
use ssh_ui.Config.Line.{directive, Line, values, content}
use ssh_ui.Config.Parse.{File, parse, render, parse_line}
use ssh_ui.Config.Parse.Lossless.{render-parse}
use ssh_ui.Config.Parse.RoundTrip.{Canonical, parse-render, parse-Canonical}
use ssh_ui.Config.Block.{blocks, block_at, governs}
use ssh_ui.Config.Block.Cover.{Tiles, block_at-governs}
use ssh_ui.Config.Block.Headers.{header_lines, Follows, blocks-Tiles}
use ssh_ui.Config.Block.{global_block}
use ssh_ui.Config.Comment.{render_comment, comment_line, text_of, unix_breaks}
use ssh_ui.Config.Comment.ReadBack.{text_of-render_comment, text_of-comment_line}
use ssh_ui.Edit.Build.{EditError, build_line}
use ssh_ui.Edit.Build.ReadBack.{build_line-reads_back}

abbrev source : Bytes
source = codes "# web\nHost a b\n  Port = 22\n\nHost *\nUser \"x y\""

abbrev built : Result EditError Line
built = build_line (codes "  ") (codes "User") (codes "x y" ∷ []) (codes "\n")

render-parse_example : render (parse source) ≡ source
render-parse_example = render-parse source

parse-Canonical_example : Canonical (parse source).lines
parse-Canonical_example = parse-Canonical source

parse-render_example : parse (render (parse source)) ≡ parse source
parse-render_example = parse-render (parse source) (parse-Canonical source)

split_arguments-ne-unfinished_example : split_arguments (codes "a \"b c\"") ≢ unfinished
split_arguments-ne-unfinished_example = split_arguments-ne-unfinished (codes "a \"b c\"")

abbrev site : File
site = record {
  lines =
      parse_line (codes "# web") (codes "\n")
      ∷ parse_line (codes "Host a b") (codes "\n")
      ∷ parse_line (codes "  Port = 22") (codes "\n")
      ∷ parse_line (codes "Match host c") []
      ∷ [];
}

blocks-Tiles_example :
    Tiles 4 0 none (blocks site) × Follows global_block (header_lines 0 site.lines) (blocks site)
blocks-Tiles_example = blocks-Tiles site

block_at-governs_example :
    (governs (block_at site 2) 2 ≡ true)
    × All (λ b. governs b 2 ≡ true → b ≡ block_at site 2) (blocks site)
block_at-governs_example = block_at-governs site 2 (omega arith)

text_of-render_comment_example :
    text_of (render_comment (codes "web\nold") (codes "  ") (codes "\n")) ≡ codes "web\nold"
unfolding all is_space unix_breaks split_byte cut_byte trim_right drop_while trim_suffix trim_prefix
    has_prefix take_while
text_of-render_comment_example =
    text_of-render_comment (codes "web\nold") (codes "  ") (codes "\n") refl (inl refl) refl
      ((refl, refl, refl), ((refl, refl, refl), tt))

text_of-comment_line_example :
    text_of (comment_line [] (codes "\n") (codes "# web") ∷ []) ≡ trim_prefix b' ' (codes " web")
unfolding all is_space trim_right drop_while trim_suffix has_prefix take_while
text_of-comment_line_example =
    text_of-comment_line (codes " web") [] (codes "\n") refl (inl refl) refl refl

abbrev built_line : Line
built_line = record {
  kind = directive;
  text = [];
  indent = codes "  ";
  keyword = codes "User";
  separator = codes " ";
  args = record { lead = []; raw = codes "\"x y\""; value = codes "x y" } ∷ [];
  trailing = [];
  ending = codes "\n";
}

build_line-runs : built ≡ ok built_line
unfolding build_line render_argument needs_quotes contains_any contains_byte has_prefix
build_line-runs = refl

build_line-reads_back_example :
    (parse_line (content built_line) (codes "\n") ≡ built_line)
    × (values (parse_line (content built_line) (codes "\n")) ≡ (codes "x y" ∷ []))
unfolding all is_space has_prefix
build_line-reads_back_example =
    build_line-reads_back (codes "  ") (codes "User") (codes "x y" ∷ []) (codes "\n") refl
      (refl, refl) refl build_line-runs

split_arguments-runs :
    split_arguments (codes "a ")
    ≡ arguments (record { lead = []; raw = codes "a"; value = codes "a" } ∷ []) (codes " ")
unfolding split_arguments take_while drop_while is_space
split_arguments-runs = refl
