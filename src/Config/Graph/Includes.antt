-- ===== src/Config/Graph/Includes.antt =====
-- internal/config/graph.go: what the Include lines of the files that are walked match is covered.
use ssh_ui.Base.{ℕ, ◌≡◌, true, false, some, List, [], ◌∷◌, All, Bytes, codes, ok}
use ssh_ui.Config.Line.{Line, directive, values, equal_keyword}
use ssh_ui.Config.Parse.{parse}
use ssh_ui.Config.Include.{Resolver, expand_pattern}
use ssh_ui.Config.Graph.{Severity, Code, Node, Graph, diagnose, change, seen, add_node}
use ssh_ui.Config.Graph.Kept.{IsKept}
use ssh_ui.Config.Graph.Covered.{IsCovered, kept}

-- What a value of an Include line matches, as the loader answers, is covered.
abbrev pub ValueCovered : Resolver → Graph → Bytes → Type 0
ValueCovered r g v =
    (pattern : Bytes) (found : List Bytes)
    → expand_pattern r v ≡ some pattern
    → r.glob pattern ≡ ok found
    → All (IsCovered g) found

abbrev pub LineCovered : Resolver → Graph → Line → Type 0
LineCovered r g l =
    l.kind ≡ directive
    → equal_keyword l.keyword (codes "Include") ≡ true
    → All (ValueCovered r g) (values l)

-- What the Include lines of the contents of a file match is covered.
abbrev pub ContentsCovered : Resolver → Graph → Bytes → Type 0
ContentsCovered r g path =
    (contents : Bytes)
    → r.read_file path ≡ ok contents
    → All (LineCovered r g) (parse contents).lines

module _ {A : Type 0} (r : Resolver) (P : A → Graph → Type 0)
    (each : (x : A) → IsKept r (P x)) where
  kept-each : IsKept r (λ g. (x : A) → P x g)
  kept-each = record {
    steady = record {
      diagnosed = λ severity code path line detail g h x.
          (each x).steady.diagnosed severity code path line detail g (h x);
      changed = λ path f g h x. (each x).steady.changed path f g (h x);
    };
    added = λ path g s h x. (each x).added path g s (h x);
  }

  diagnosed-All :
      (xs : List A) (severity : Severity) (code : Code) (path : Bytes) (line : ℕ) (detail : Bytes)
      (g : Graph)
      → All (λ x. P x g) xs
      → All (λ x. P x (diagnose severity code path line detail g)) xs
  diagnosed-All [] severity code path line detail g h = tt
  diagnosed-All (x ∷ xs) severity code path line detail g h = (
    (each x).steady.diagnosed severity code path line detail g h.0,
    diagnosed-All xs severity code path line detail g h.1,
  )

  changed-All :
      (xs : List A) (path : Bytes) (f : Node → Node) (g : Graph)
      → All (λ x. P x g) xs
      → All (λ x. P x (change path f g)) xs
  changed-All [] path f g h = tt
  changed-All (x ∷ xs) path f g h =
      ((each x).steady.changed path f g h.0, changed-All xs path f g h.1)

  added-All :
      (xs : List A) (path : Bytes) (g : Graph)
      → seen g path ≡ false
      → All (λ x. P x g) xs
      → All (λ x. P x (add_node r path g)) xs
  added-All [] path g s h = tt
  added-All (x ∷ xs) path g s h = ((each x).added path g s h.0, added-All xs path g s h.1)

  kept-All : (xs : List A) → IsKept r (λ g. All (λ x. P x g) xs)
  kept-All xs = record {
    steady = record {
      diagnosed =
          λ severity code path line detail g h. diagnosed-All xs severity code path line detail g h;
      changed = λ path f g h. changed-All xs path f g h;
    };
    added = λ path g s h. added-All xs path g s h;
  }

module _ (r : Resolver) where
  pub value-kept : (v : Bytes) → IsKept r (λ g. ValueCovered r g v)
  value-kept v = kept-each r _ (λ pattern. kept-each r _ (λ found.
      kept-each r _ (λ e. kept-each r _ (λ q. kept-All r (λ m g. IsCovered g m) (kept r) found))))

  pub line-kept : (l : Line) → IsKept r (λ g. LineCovered r g l)
  line-kept l =
      kept-each r _
        (λ k. kept-each r _ (λ e. kept-All r (λ v g. ValueCovered r g v) value-kept (values l)))

  pub contents-kept : (path : Bytes) → IsKept r (λ g. ContentsCovered r g path)
  contents-kept path = kept-each r _ (λ contents.
      kept-each r _ (λ e. kept-All r (λ l g. LineCovered r g l) line-kept (parse contents).lines))
