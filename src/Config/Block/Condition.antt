-- ===== src/Config/Block/Condition.antt =====
-- internal/config/block.go: `Condition`, the text of a block's header.
use ssh_ui.Base.{ℕ, Option, none, some, List, [], Bytes, trim_space, get_elem?}
use ssh_ui.Config.Line.{Line, render_line}
use ssh_ui.Config.Parse.{File}
use ssh_ui.Config.Block.{Block}

header_line : Option ℕ → List Line → Option Line
header_line none ls = none
header_line (some h) ls = get_elem? ls h

header_text : Option Line → Bytes
header_text none = []
header_text (some l) = trim_space (render_line l)

unfoldable pub condition : File → Block → Bytes
unfolding header_line header_text render_line trim_space
condition f b = header_text (header_line b.header f.lines)
