-- ===== src/Edit/Lines.antt =====
-- internal/application/edit.go: the rewriting of one line, and where a new line goes.
pub mod Values
use ssh_ui.Base.{
  ℕ, zero, suc, ◌-◌, Bool, true, false, not, ◌&&◌, Option, none, some, List, [], ◌∷◌, ◌++◌, Bytes,
  codes, has_prefix, str_eq, if◌then◌else◌, Result, ok, err, ◌>>=◌, ◌>>◌,
}
use ssh_ui.Config.Token.{Argument}
use ssh_ui.Config.Line.{LineKind, Line, directive}
use ssh_ui.Config.Parse.{File}
use ssh_ui.Config.Block.{Block}
use ssh_ui.Config.Comment.{slice}
use ssh_ui.Edit.Build.{EditError, render_value, validate_keyword}

unfoldable pub kind_is_directive : LineKind → Bool
kind_is_directive directive = true
kind_is_directive _ = false

unfoldable pub is_directive : Line → Bool
unfolding kind_is_directive
is_directive l = kind_is_directive l.kind

-- the values, and the comment that ends the line
unfoldable pub split_comment_arguments : List Argument → List Argument × List Argument
split_comment_arguments [] = ([], [])
split_comment_arguments (a ∷ xs) =
    let rest = split_comment_arguments xs in
    if has_prefix a.raw (codes "#") then ([], a ∷ xs) else (a ∷ rest.0, rest.1)

-- The first loop of `rebuildLine`: a value takes the lead of the argument in its place, and
-- behind the last of those the lead is one space, or nothing for the first value.
unfoldable pub rebuild_values :
    Bytes → List Argument → List Bytes → Result EditError (List Argument)
rebuild_values lead existing [] = ok []
rebuild_values lead [] (v ∷ vs) = do
  a ← render_value lead v
  rest ← rebuild_values (codes " ") [] vs
  ok (a ∷ rest)
rebuild_values lead (e ∷ es) (v ∷ vs) = do
  a ← render_value e.lead v
  rest ← rebuild_values (codes " ") es vs
  ok (a ∷ rest)

unfoldable pub or_space : Bytes → Bytes
or_space [] = codes " "
or_space text = text

-- the second loop: a comment that becomes the first argument needs a space
unfoldable pub place_comment : List Argument → List Argument → List Argument
unfolding or_space
place_comment [] (c ∷ cs) = record c { lead = or_space c.lead } ∷ cs
place_comment xs comment = xs ++ comment

unfoldable pub rebuild_line : Line → Bytes → List Bytes → Result EditError Line
unfolding split_comment_arguments rebuild_values place_comment or_space
rebuild_line l keyword vs = do
  let parts = split_comment_arguments l.args
  xs ← rebuild_values [] (parts.0) vs
  ok (record l {
    keyword = keyword;
    separator = or_space l.separator;
    args = place_comment xs (parts.1);
  })

unfoldable pub rebuild_directive : Line → Bytes → List Bytes → Result EditError Line
unfolding validate_keyword rebuild_line
rebuild_directive l keyword vs = do validate_keyword keyword; rebuild_line l keyword vs

-- the lines of a block that the file has
unfoldable pub body : File → Block → List Line
unfolding slice
body f b = slice f.lines b.start (b.end - b.start)

-- the loop of `appendPosition`
unfoldable pub append_loop : ℕ → ℕ → List Line → ℕ
unfolding is_directive
append_loop position index [] = position
append_loop position index (l ∷ ls) =
    append_loop (if is_directive l then suc index else position) (suc index) ls

unfoldable pub append_position : File → Block → ℕ
unfolding append_loop body
append_position f b = append_loop b.start b.start (body f b)

-- the last line that passes a test, as the loops that run down find it
unfoldable pub find_last : (Line → Bool) → Option Line → List Line → Option Line
find_last p found [] = found
find_last p found (l ∷ ls) = find_last p (if p l then some l else found) ls

indent_of : Option Line → Bytes
indent_of none = codes "\t"
indent_of (some l) = l.indent

unfoldable pub block_indent : File → Block → Bytes
unfolding find_last body is_directive indent_of
block_indent f b = indent_of (find_last is_directive none (body f b))

-- the first ending of the lines
unfoldable pub dominant_ending : List Line → Bytes
dominant_ending [] = codes "\n"
dominant_ending (l ∷ ls) = elim (str_eq l.ending []) [
  | true ↦ dominant_ending ls
  | false ↦ l.ending
]

ending_of : File → Option Line → Bytes
ending_of f none = dominant_ending f.lines
ending_of f (some l) = l.ending

unfoldable pub block_ending : File → Block → Bytes
unfolding find_last body is_directive ending_of dominant_ending
block_ending f b =
    ending_of f (find_last (λ l. is_directive l && not (str_eq l.ending [])) none (body f b))

unfoldable pub end_with : Bytes → Line → Line
end_with ending l = if str_eq l.ending [] then record l { ending = ending } else l

-- A position is never behind the end of the file: there the source would panic.
unfoldable pub insert_line : ℕ → Line → List Line → List Line
unfolding end_with
insert_line zero new ls = new ∷ ls
insert_line (suc position) new [] = new ∷ []
insert_line (suc zero) new (l ∷ ls) = end_with new.ending l ∷ new ∷ ls
insert_line (suc (suc position)) new (l ∷ ls) = l ∷ insert_line (suc position) new ls
