-- ===== src/Config/Graph/Covered.antt =====
-- internal/config/graph.go: the matches that a graph has or reports, and the steps that keep them.
use ssh_ui.Base.{
  ℕ, ◌≡◌, ◌⊎◌, refl, sym, ap, subst, ◌∙◌, Bool, true, false, ◌||◌, ◌&&◌, Option, some, List, [],
  ◌∷◌, ◌++◌, arith, All, Bytes, str_eq, str_eq_refl, if◌then◌else◌, Dict, lookup, insert,
  lookup-insert,
}
use ssh_ui.Config.Include.{Resolver}
use ssh_ui.Config.Graph.{
  Severity, Code, Diagnostic, include_cycle, include_depth_exceeded, Node, Graph, Edge, diagnose,
  update, change, is_node, seen, add_node,
}
use ssh_ui.Config.Graph.Kept.{IsKept, seen-change}

unfoldable pub is_skip : Code → Bool
is_skip include_cycle = true
is_skip include_depth_exceeded = true
is_skip _ = false

-- a diagnostic says that a file is not entered, since it is in the chain or too deep
pub is_skipped : Bytes → List Diagnostic → Bool
is_skipped match [] = false
is_skipped match (d ∷ ds) = is_skip d.code && str_eq d.detail match || is_skipped match ds

-- The graph has the file, or reports why it does not enter it.
abbrev pub IsCovered : Graph → Bytes → Type 0
IsCovered g match = (seen g match || is_skipped match g.diagnostics) ≡ true

is_skipped-append :
    (match : Bytes) (ds es : List Diagnostic)
    → is_skipped match (ds ++ es) ≡ (is_skipped match ds || is_skipped match es)
unfolding is_skipped
is_skipped-append match [] es = refl
is_skipped-append match (d ∷ ds) es = ground (arith, is_skipped-append match ds es)

or_more : (a b c : Bool) → (a || b) ≡ true → (a || (b || c)) ≡ true
or_more a b c h = ground arith

pub covered-diagnose :
    (severity : Severity) (code : Code) (path : Bytes) (line : ℕ) (detail : Bytes) (g : Graph)
    (match : Bytes)
    → IsCovered g match
    → IsCovered (diagnose severity code path line detail g) match
unfolding diagnose seen
covered-diagnose severity code path line detail g match h =
    rw (is_skipped-append match g.diagnostics) (or_more _ (is_skipped match g.diagnostics) _ h)

or_last : (a b c d : Bool) → c ≡ true → d ≡ true → (a || (b || (c && d || false))) ≡ true
or_last a b c d h k = ground arith

pub covered-skip :
    (severity : Severity) (code : Code) (path : Bytes) (line : ℕ) (g : Graph) (match : Bytes)
    → is_skip code ≡ true
    → IsCovered (diagnose severity code path line match g) match
unfolding diagnose seen
covered-skip severity code path line g match h =
    rw (is_skipped-append match g.diagnostics)
      (unfold is_skipped in or_last _ (is_skipped match g.diagnostics) _ _ h (str_eq_refl match))

pub covered-change :
    (path : Bytes) (f : Node → Node) (g : Graph) (match : Bytes)
    → IsCovered g match
    → IsCovered (change path f g) match
covered-change path f g match h =
    subst (λ b. (b || is_skipped match (change path f g).diagnostics) ≡ true)
      (sym (seen-change path match f g)) (unfold change in h)

is_node-if :
    (b : Bool) (n : Node) (o : Option Node) → is_node (if b then some n else o) ≡ (b || is_node o)
unfolding is_node
is_node-if true n o = refl
is_node-if false n o = refl

pub seen-add_node :
    (r : Resolver) (path match : Bytes) (g : Graph)
    → seen (add_node r path g) match ≡ (str_eq path match || seen g match)
unfolding seen add_node
seen-add_node r path match g =
    ap is_node (lookup-insert path match _ g.nodes)
    ∙ is_node-if (str_eq path match) _ (lookup match g.nodes)

or_first : (a b c : Bool) → (b || c) ≡ true → ((a || b) || c) ≡ true
or_first a b c h = ground arith

pub covered-add_node :
    (r : Resolver) (path : Bytes) (g : Graph) (match : Bytes)
    → IsCovered g match
    → IsCovered (add_node r path g) match
covered-add_node r path g match h =
    subst (λ b. (b || is_skipped match (add_node r path g).diagnostics) ≡ true)
      (sym (seen-add_node r path match g))
      (unfold add_node in or_first (str_eq path match) (seen g match) _ h)

-- what is covered stays so
pub kept : (r : Resolver) (match : Bytes) → IsKept r (λ g. IsCovered g match)
kept r match = record {
  steady = record {
    diagnosed = λ severity code path line detail g h.
        covered-diagnose severity code path line detail g match h;
    changed = λ path f g h. covered-change path f g match h;
  };
  added = λ path g s h. covered-add_node r path g match h;
}

-- a statement on every match of every edge of a map
unfoldable pub AllMatches : (Bytes → Type 0) → Dict Node → Type 0
AllMatches P [] = Unit
AllMatches P ((p, n) ∷ ns) = All (λ (e : Edge). All P e.matches) n.includes × AllMatches P ns

All-map :
    {A : Type 0} (P Q : A → Type 0) (xs : List A) → ((x : A) → P x → Q x) → All P xs → All Q xs
All-map P Q [] f h = tt
All-map P Q (x ∷ xs) f h = (f x h.0, All-map P Q xs f h.1)

pub AllMatches-map :
    (P Q : Bytes → Type 0) (ns : Dict Node)
    → ((match : Bytes) → P match → Q match)
    → AllMatches P ns
    → AllMatches Q ns
unfolding AllMatches
AllMatches-map P Q [] f h = tt
AllMatches-map P Q ((p, n) ∷ ns) f h =
    (All-map _ _ n.includes (λ e a. All-map P Q e.matches f a) h.0, AllMatches-map P Q ns f h.1)

module _ (P : Bytes → Type 0) where
  pub AllMatches-update :
      (path : Bytes) (f : Node → Node) (ns : Dict Node)
      → ((n : Node)
          → All (λ (e : Edge). All P e.matches) n.includes
          → All (λ (e : Edge). All P e.matches) (f n).includes)
      → AllMatches P ns
      → AllMatches P (update path f ns)
  unfolding AllMatches update
  AllMatches-update path f [] k h = tt
  AllMatches-update path f ((p, n) ∷ ns) k h =
      elim (str_eq p path)
        as (λ b. AllMatches P ((if b then (p, f n) else (p, n)) ∷ update path f ns)) [
          | true ↦ (k n h.0, AllMatches-update path f ns k h.1)
          | false ↦ (h.0, AllMatches-update path f ns k h.1)
        ]

  pub AllMatches-insert :
      (path : Bytes) (n : Node) (ns : Dict Node)
      → All (λ (e : Edge). All P e.matches) n.includes
      → AllMatches P ns
      → AllMatches P (insert path n ns)
  unfolding AllMatches insert
  AllMatches-insert path n [] k h = (k, tt)
  AllMatches-insert path n ((p, m) ∷ ns) k h =
      elim (str_eq p path)
        as (λ b. AllMatches P (if b then (path, n) ∷ ns else (p, m) ∷ insert path n ns)) [
          | true ↦ (k, h.1)
          | false ↦ (h.0, AllMatches-insert path n ns k h.1)
        ]

-- Every match is covered, or is still to be entered.
abbrev pub IsComplete : (Bytes → Type 0) → Graph → Type 0
IsComplete Q g = AllMatches (λ match. Q match ⊎ IsCovered g match) g.nodes

-- the file that is added
pub added : (r : Resolver) (path : Bytes) (g : Graph) → IsCovered (add_node r path g) path
added r path g =
    subst (λ b. (b || is_skipped path (add_node r path g).diagnostics) ≡ true)
      (sym (seen-add_node r path path g)) (rw (str_eq_refl path) refl)
