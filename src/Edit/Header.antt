-- ===== src/Edit/Header.antt =====
-- internal/application/edit.go: the replacement of a whole block, the renaming of a host and the
-- comment on its header. Each returns the file that it leaves.
pub mod Replace
use ssh_ui.Base.{
  ℕ, zero, suc, ◌+◌, ◌-◌, Bool, true, false, not, ◌&&◌, ◌||◌, Option, none, some, List, [], ◌∷◌,
  ◌++◌, Bytes, codes, str_eq, ltb, leb, ◌==◌, if◌then◌else◌, length, get_elem?, Result, ok, err,
  ◌>>=◌, ◌>>◌, guard, or_err, all,
}
use ssh_ui.Config.Line.{Line, values, equal_keyword}
use ssh_ui.Config.Parse.{File, parse}
use ssh_ui.Config.Block.{Block, BlockKind, host}
use ssh_ui.Config.Comment.{slice, comment_run, render_comment}
use ssh_ui.Edit.Build.{
  EditError, raw_block_header, raw_block_structure, invalid_alias, host_not_found, is_letter,
  is_digit,
}
use ssh_ui.Edit.Lines.{is_directive, rebuild_line, dominant_ending, block_ending, end_with}

unfoldable pub take_lines : ℕ → List Line → List Line
take_lines zero ls = []
take_lines (suc n) [] = []
take_lines (suc n) (l ∷ ls) = l ∷ take_lines n ls

unfoldable pub drop_lines : ℕ → List Line → List Line
drop_lines zero ls = ls
drop_lines (suc n) [] = []
drop_lines (suc n) (l ∷ ls) = drop_lines n ls

-- a header inside the file; `none` is the header -1
unfoldable pub inside : Option ℕ → List Line → Option ℕ
inside none ls = none
inside (some h) ls = if ltb h (length ls) then some h else none

unfoldable pub opens_block : Line → Bool
opens_block l = equal_keyword l.keyword (codes "Host") || equal_keyword l.keyword (codes "Match")

-- the loop of `ReplaceBlock` over the replacement: its directives
unfoldable pub directives : List Line → List Line
unfolding is_directive
directives [] = []
directives (l ∷ ls) = let rest = directives ls in if is_directive l then l ∷ rest else rest

unfoldable pub count_headers : List Line → ℕ
unfolding opens_block
count_headers [] = 0
count_headers (l ∷ ls) = let rest = count_headers ls in if opens_block l then suc rest else rest

-- the three checks of the replacement
unfoldable pub check_raw : List Line → Result EditError (Unit {0})
unfolding count_headers opens_block
check_raw [] = err raw_block_header
check_raw (first ∷ rest) = do
  guard (opens_block first) raw_block_header
  guard (count_headers (first ∷ rest) == 1) raw_block_structure

unfoldable pub end_last : Bytes → List Line → List Line
unfolding end_with
end_last ending [] = []
end_last ending (l ∷ []) = end_with ending l ∷ []
end_last ending (l ∷ m ∷ ls) = l ∷ end_last ending (m ∷ ls)

unfoldable pub replacement : File → Block → Bytes → List Line
unfolding parse end_last dominant_ending
replacement f b raw =
    if ltb b.end (length f.lines)
    then end_last (dominant_ending f.lines) (parse raw).lines
    else (parse raw).lines

unfoldable pub replace_block : File → Block → Bytes → Result EditError File
unfolding inside check_raw directives replacement take_lines drop_lines
replace_block f b raw = do
  h ← or_err raw_block_header (inside b.header f.lines)
  check_raw (directives (parse raw).lines)
  ok (record { lines = take_lines h f.lines ++ (replacement f b raw ++ drop_lines b.end f.lines) })

-- the loop of `ValidateAlias`; the flag is `index > 0`
alias_bytes : Bool → Bytes → Bool
alias_bytes later [] = true
alias_bytes later (c ∷ cs) =
    (is_letter c || is_digit c || later && (c == b'.' || c == b'-' || c == b'_'))
    && alias_bytes true cs

unfoldable pub check_alias : Bytes → Result EditError (Unit {0})
unfolding alias_bytes is_letter
check_alias alias = do
  guard (not (length alias == 0 || ltb 64 (length alias))) invalid_alias
  guard (alias_bytes false alias) invalid_alias

kind_is_host : BlockKind → Bool
kind_is_host host = true
kind_is_host _ = false

unfoldable pub host_header : Block → List Line → Option ℕ
unfolding kind_is_host inside
host_header b ls = if kind_is_host b.kind then inside b.header ls else none

-- the loop of `RenameHostAlias`: the first value that is the old alias; `none` without one
unfoldable pub replace_first : Bytes → Bytes → List Bytes → Option (List Bytes)
replace_first old new [] = none
replace_first old new (v ∷ vs) = elim (str_eq v old) [
  | true ↦ some (new ∷ vs)
  | false ↦ elim (replace_first old new vs) [ none ↦ none | some ws ↦ some (v ∷ ws) ]
]

unfoldable pub set_line : ℕ → Line → List Line → List Line
set_line index new [] = []
set_line zero new (l ∷ ls) = new ∷ ls
set_line (suc index) new (l ∷ ls) = l ∷ set_line index new ls

unfoldable pub rename_host_alias : File → Block → Bytes → Bytes → Result EditError File
unfolding check_alias host_header replace_first rebuild_line set_line
rename_host_alias f b old new = do
  check_alias new
  h ← or_err raw_block_header (host_header b f.lines)
  header ← or_err raw_block_header (get_elem? f.lines h)
  updated ← or_err host_not_found (replace_first old new (values header))
  rebuilt ← rebuild_line header header.keyword updated
  ok (record { lines = set_line h rebuilt f.lines })

unfoldable pub set_host_comment : File → Block → Bytes → Result EditError File
unfolding host_header comment_run render_comment block_ending take_lines drop_lines
set_host_comment f b text = do
  h ← or_err host_not_found (host_header b f.lines)
  header ← or_err host_not_found (get_elem? f.lines h)
  ok (record {
    lines =
        take_lines (comment_run f h) f.lines
        ++ (render_comment text header.indent (block_ending f b) ++ drop_lines h f.lines);
  })
