-- ===== src/Config/Comment.antt =====
-- internal/config/block.go: the comment that stands on top of a block's header.
pub mod Run
pub mod ReadBack
use ssh_ui.Base.{
  ℕ, zero, suc, Bool, true, false, Option, none, some, List, [], ◌∷◌, ◌++◌, map, Bytes, codes,
  has_prefix, ltb, ◌==◌, if◌then◌else◌, length, get_elem?, drop_while, trim_prefix, trim_suffix,
  trim_right, split_byte, join,
}
use ssh_ui.Config.Token.{is_space}
use ssh_ui.Config.Line.{LineKind, comment, Line, verbatim}
use ssh_ui.Config.Parse.{File}

kind_is_comment : LineKind → Bool
kind_is_comment comment = true
kind_is_comment _ = false

unfoldable pub is_comment : Option Line → Bool
unfolding kind_is_comment
is_comment none = false
is_comment (some l) = kind_is_comment l.kind

-- `for start > 0 && Lines[start-1].Kind == LineComment { start-- }`
unfoldable pub run_loop : List Line → ℕ → ℕ
run_loop lines zero = zero
run_loop lines (suc start) =
    let above = run_loop lines start in
    if is_comment (get_elem? lines start) then above else suc start

-- A header behind the end of the file is returned as it is; a header below 0 is no number here.
unfoldable pub comment_run : File → ℕ → ℕ
unfolding run_loop is_comment
comment_run f header = if ltb (length f.lines) header then header else run_loop f.lines header

-- the text of one line without its marker
unfoldable pub strip_marker : Bytes → Bytes
unfolding is_space
strip_marker text =
    trim_prefix b' ' (trim_prefix b'#' (trim_suffix 13 (trim_suffix 10 (drop_while is_space text))))

-- `lines[start:start+count]`
unfoldable pub slice : List Line → ℕ → ℕ → List Line
slice lines start zero = []
slice [] start (suc count) = []
slice (l ∷ ls) zero (suc count) = l ∷ slice ls zero count
slice (l ∷ ls) (suc start) (suc count) = slice ls start (suc count)

-- The texts of the lines of a comment, joined.
unfoldable pub text_of : List Line → Bytes
unfolding strip_marker
text_of lines = join (codes "\n") (map (λ (l : Line). strip_marker l.text) lines)

-- `strings.ReplaceAll(text, "\r\n", "\n")`
unfoldable pub unix_breaks : Bytes → Bytes
unix_breaks [] = []
unix_breaks (c ∷ []) = c ∷ []
unix_breaks (c ∷ d ∷ cs) =
    let rest = unix_breaks (d ∷ cs) in
    if c == 13 then (if d == 10 then rest else c ∷ rest) else c ∷ rest

-- one line of `RenderComment`, from a part without trailing spaces
unfoldable pub mark : Bytes → Bytes
mark [] = codes "#"
mark (c ∷ cs) = if c == b'#' then c ∷ cs else codes "# " ++ (c ∷ cs)

unfoldable pub comment_line : Bytes → Bytes → Bytes → Line
unfolding mark is_space
comment_line indent ending part =
    verbatim comment (indent ++ (mark (trim_right is_space part) ++ ending)) []

unfoldable pub render_comment : Bytes → Bytes → Bytes → List Line
unfolding comment_line unix_breaks
render_comment [] indent ending = []
render_comment text indent ending =
    map (comment_line indent ending) (split_byte b'\n' (unix_breaks text))
