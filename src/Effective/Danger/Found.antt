-- ===== src/Effective/Danger/Found.antt =====
-- internal/effective/danger.go: no command of a block is passed over.
use ssh_ui.Base.{
  Bool, true, false, str_eq, codes, trim_space, ℕ, zero, suc, ◌+◌, ◌-◌, ◌<◌, ◌≡◌, ◌⊎◌, inl, inr,
  refl, sym, ap, subst, ◌∙◌, Option, some, some_eq, List, [], ◌∷◌, ◌++◌, arith, Bytes, to_lower,
  get_elem?, lookup,
}
use ssh_ui.Config.Line.{Line, directive, render_arguments}
use ssh_ui.Config.Token.{Argument}
use ssh_ui.Config.Parse.{File}
use ssh_ui.Config.Block.{Block, blocks}
use ssh_ui.Config.Block.Condition.{condition}
use ssh_ui.Config.Comment.{slice}
use ssh_ui.Config.Graph.{Node, Graph}
use ssh_ui.Effective.Reading.{argument_text}
use ssh_ui.Effective.Danger.{
  Executable, on_connection, template_of, filled_in, from_template, scan_line, scan_lines,
  scan_block, scan_blocks, scan_file, scan_node, scan_order, scan,
}

-- an element of a list
unfoldable pub Has : {A : Type 0} → A → List A → Type 0
Has x [] = ⊥
Has x (y ∷ ys) = (y ≡ x) ⊎ Has x ys

Has-left : {A : Type 0} (x : A) (xs ys : List A) → Has x xs → Has x (xs ++ ys)
unfolding Has
Has-left x [] ys h = absurd h
Has-left x (y ∷ xs) ys (inl e) = inl e
Has-left x (y ∷ xs) ys (inr h) = inr (Has-left x xs ys h)

Has-right : {A : Type 0} (x : A) (xs ys : List A) → Has x ys → Has x (xs ++ ys)
unfolding Has
Has-right x [] ys h = h
Has-right x (y ∷ xs) ys h = inr (Has-right x xs ys h)

get_elem?-slice :
    (ls : List Line) (start count j : ℕ)
    → j < count
    → get_elem? (slice ls start count) j ≡ get_elem? ls (start + j)
unfolding slice
get_elem?-slice ls start zero j h = absurd (omega arith)
get_elem?-slice [] start (suc count) j h = refl
get_elem?-slice (l ∷ ls) zero (suc count) zero h = refl
get_elem?-slice (l ∷ ls) zero (suc count) (suc j) h =
    get_elem?-slice ls zero count j (omega arith)
    ∙ ap (get_elem? ls) (omega arith)
    ∙ ap (get_elem? (l ∷ ls)) shift
  where
    shift : suc j ≡ zero + suc j
    shift = omega arith
get_elem?-slice (l ∷ ls) (suc start) (suc count) j h =
    get_elem?-slice ls start (suc count) j h ∙ ap (get_elem? (l ∷ ls)) shift
  where
    shift : suc (start + j) ≡ suc start + j
    shift = omega arith

scan_lines-Has :
    (path : Bytes) (index j : ℕ) (text : Bytes) (ls : List Line) (l : Line) (e : Executable)
    → get_elem? ls j ≡ some l
    → l.kind ≡ directive
    → template_of (to_lower l.keyword) ≡ some e
    → Has (filled_in path (index + j) l text e) (scan_lines path index text ls)
unfolding scan_lines scan_line from_template Has argument_text
scan_lines-Has path index j text [] l e h k t = absurd (cc)
scan_lines-Has path index zero text (x ∷ ls) l e h k t =
    Has-left _ (scan_line path index x text x.kind) _ (
      subst
        (λ (y : Line).
          Has (filled_in path (index + zero) l text e) (scan_line path index y text y.kind))
        (sym (some_eq h)) (rw (k, t) (inl (ap (λ n. filled_in path n l text e) zero_more))))
  where
    zero_more : index ≡ index + zero
    zero_more = omega arith
scan_lines-Has path index (suc j) text (x ∷ ls) l e h k t =
    Has-right _ (scan_line path index x text x.kind) _ (
      subst (λ n. Has (filled_in path n l text e) (scan_lines path (index + 1) text ls)) one_more
        (scan_lines-Has path (index + 1) j text ls l e h k t))
  where
    one_more : index + 1 + j ≡ index + suc j
    one_more = omega arith

scan_blocks-Has :
    (path : Bytes) (f : File) (b : Block) (bs : List Block) (x : Executable)
    → Has b bs
    → Has x (scan_block path f b)
    → Has x (scan_blocks path f bs)
unfolding Has scan_blocks
scan_blocks-Has path f b [] x h k = absurd h
scan_blocks-Has path f b (c ∷ bs) x (inl e) k =
    Has-left x (scan_block path f c) _ (subst (λ d. Has x (scan_block path f d)) (sym e) k)
scan_blocks-Has path f b (c ∷ bs) x (inr h) k =
    Has-right x (scan_block path f c) _ (scan_blocks-Has path f b bs x h k)

scan_order-Has :
    (g : Graph) (path : Bytes) (paths : List Bytes) (x : Executable)
    → Has path paths
    → Has x (scan_node path (lookup path g.nodes))
    → Has x (scan_order g paths)
unfolding Has scan_order
scan_order-Has g path [] x h k = absurd h
scan_order-Has g path (p ∷ paths) x (inl e) k =
    Has-left x (scan_node p (lookup p g.nodes)) _
      (subst (λ q. Has x (scan_node q (lookup q g.nodes))) (sym e) k)
scan_order-Has g path (p ∷ paths) x (inr h) k =
    Has-right x (scan_node p (lookup p g.nodes)) _ (scan_order-Has g path paths x h k)

-- The four directives that run a command when a connection is made, each with the name it is reported
-- under and whether the command line can override it.
pub data Runs : Bytes → Bytes → Bool → Type 0 where
  proxy_command : Runs (codes "proxycommand") (codes "ProxyCommand") false
  known_hosts_command : Runs (codes "knownhostscommand") (codes "KnownHostsCommand") false
  local_command : Runs (codes "localcommand") (codes "LocalCommand") true
  remote_command : Runs (codes "remotecommand") (codes "RemoteCommand") true

-- What is reported of a directive on the line with index `i`, below the condition `text`.
pub record IsReported (file : Bytes) (i : ℕ) (text name : Bytes) (args : List Argument)
    (forced : Bool) (x : Executable) : Type 0 where
  pub keyword : x.keyword ≡ name
  pub command : x.command ≡ trim_space (render_arguments args)
  pub path : x.path ≡ file
  pub line : x.line ≡ i + 1
  pub condition : x.condition ≡ text
  pub on_evaluate : x.on_evaluate ≡ false
  pub on_connect : x.on_connect ≡ true
  pub overridable : x.overridable ≡ forced

Runs-template :
    (word name : Bytes) (o : Bool)
    → Runs word name o
    → template_of word ≡ some (on_connection name o)
unfolding template_of str_eq
Runs-template word name o proxy_command = refl
Runs-template word name o known_hosts_command = refl
Runs-template word name o local_command = refl
Runs-template word name o remote_command = refl

-- A ProxyCommand, KnownHostsCommand, LocalCommand or RemoteCommand, in any case, on a line
-- between the bounds of a block of a file of the graph, is reported: under its name, with its
-- arguments as the command, its file, its line counted from 1, the condition of its block, and
-- whether the command line can override it.
pub scan-Has :
    (g : Graph) (path : Bytes) (n : Node) (f : File) (b : Block) (j : ℕ) (l : Line) (name : Bytes)
    (overridable : Bool)
    → Has path g.order
    → lookup path g.nodes ≡ some n
    → n.file ≡ some f
    → Has b (blocks f)
    → b.start + j < b.end
    → get_elem? f.lines (b.start + j) ≡ some l
    → l.kind ≡ directive
    → Runs (to_lower l.keyword) name overridable
    → (x : Executable) × Has x (scan g)
      × IsReported path (b.start + j) (condition f b) name l.args overridable x
unfolding scan scan_node scan_file scan_block argument_text
scan-Has g path n f b j l name overridable o q r m h i k t =
    let e = on_connection name overridable in
    let x = filled_in path (b.start + j) l (condition f b) e in
    (
      x,
      scan_order-Has g path g.order x o (
          subst (λ (z : Option Node). Has x (scan_node path z)) (sym q)
            (subst (λ (z : Option File). Has x (scan_file path z)) (sym r)
              (scan_blocks-Has path f b (blocks f) x m (
                Has-right x _
                  (scan_lines path b.start (condition f b)
                    (slice f.lines b.start (b.end - b.start)))
                  (scan_lines-Has path b.start j (condition f b) _ l e
                    (get_elem?-slice f.lines b.start (b.end - b.start) j (omega arith) ∙ i) k
                    (Runs-template (to_lower l.keyword) name overridable t)))))),
      record {
        keyword = refl;
        command = refl;
        path = refl;
        line = refl;
        condition = refl;
        on_evaluate = refl;
        on_connect = refl;
        overridable = refl;
      },
    )
