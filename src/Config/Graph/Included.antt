-- ===== src/Config/Graph/Included.antt =====
-- internal/config/graph.go: the loops over the lines, the values and the matches cover each match.
use ssh_ui.Base.{
  ℕ, ◌+◌, ◌≡◌, refl, sym, subst, ◌∙◌, Bool, true, false, none, some, List, [], ◌∷◌, ◌++◌, All,
  Bytes, str_leb, sort_by, insert_by, if◌then◌else◌, Result, ok, err, ok_eq,
}
use ssh_ui.Config.Line.{Line, values}
use ssh_ui.Config.Parse.{File, parse}
use ssh_ui.Config.Block.{block_at}
use ssh_ui.Config.Block.Condition.{condition}
use ssh_ui.Config.Include.{Resolver, ReadFailure, expand_pattern, generated_lines}
use ssh_ui.Config.Graph.{
  Graph, Edge, change, slices_contains, seen, Enter, set_file, note_root, visit_noted, visit_match,
  visit_matches, is_inside, visit_glob, visit_expanded, visit_values, note_condition,
  include_values, visit_line, visit_lines, visit_file,
}
use ssh_ui.Config.Graph.Kept.{
  IsKept, Enters, visit_matches-keeps, visit_values-keeps, visit_lines-keeps,
}
use ssh_ui.Config.Graph.Covered.{IsCovered, kept}
use ssh_ui.Config.Graph.Matches.{Covers, visit_noted-covers}
use ssh_ui.Config.Graph.Includes.{ValueCovered, LineCovered, ContentsCovered, value-kept, line-kept}

module _ (r : Resolver) where
  -- what a deeper `walk` does
  pub record IsEntering (enter : Bytes → Graph → Graph) : Type 1 where
    pub keeps :
        (P : Graph → Type 0)
        → IsKept r P
        → (match : Bytes) (g : Graph) → seen g match ≡ false
        → P g
        → P (enter match g)
    pub covers : (match : Bytes) (g : Graph) → IsCovered (enter match g) match

  abbrev pub EntersWell : Enter → Type 1
  EntersWell none = Unit
  EntersWell (some enter) = IsEntering enter

  enters :
      (P : Graph → Type 0) (k : IsKept r P) (enter : Enter)
      → EntersWell enter
      → Enters r P k.steady enter
  enters P k none e = tt
  enters P k (some enter) e = e.keeps P k

  EntersWell-Covers : (enter : Enter) → EntersWell enter → Covers r enter
  EntersWell-Covers none e = tt
  EntersWell-Covers (some enter) e = e.covers

  visit_matches-covers :
      (chain : List Bytes) (enter : Enter) (path : Bytes) (line : ℕ) (ms : List Bytes) (g : Graph)
      → EntersWell enter
      → All (IsCovered (visit_matches r chain enter path line ms g)) ms
  unfolding visit_matches visit_match
  visit_matches-covers chain enter path line [] g e = tt
  visit_matches-covers chain enter path line (m ∷ ms) g e =
      let noted = note_root r path line m g in
      let next = visit_noted r (slices_contains chain m) (seen noted m) enter path line m noted in
      let covered =
        visit_noted-covers r (slices_contains chain m) (seen noted m) enter path line m noted
          (EntersWell-Covers enter e) refl in
      (
        visit_matches-keeps r (λ h. IsCovered h m) (kept r m).steady chain enter path line ms next
            (enters (λ h. IsCovered h m) (kept r m) enter e) covered,
        visit_matches-covers chain enter path line ms next e,
      )

  unsorted_insert :
      (P : Bytes → Type 0) (x : Bytes) (xs : List Bytes)
      → All P (insert_by (λ s. s) x xs)
      → P x × All P xs
  unfolding insert_by
  unsorted_insert P x [] h = h
  unsorted_insert P x (y ∷ ys) h = go (str_leb x y) h (unsorted_insert P x ys)
    where
      go :
          (b : Bool)
          → All P (if b then x ∷ y ∷ ys else y ∷ insert_by (λ s. s) x ys)
          → (All P (insert_by (λ s. s) x ys) → P x × All P ys)
          → P x × All P (y ∷ ys)
      go true k rest = k
      go false k rest = let (a, b) = rest k.1 in (a, (k.0, b))

  unsorted : (P : Bytes → Type 0) (xs : List Bytes) → All P (sort_by (λ s. s) xs) → All P xs
  unfolding sort_by
  unsorted P [] h = tt
  unsorted P (x ∷ xs) h =
      let (a, b) = unsorted_insert P x (sort_by (λ s. s) xs) h in (a, unsorted P xs b)

  visit_glob-covers :
      (chain : List Bytes) (enter : Enter) (path : Bytes) (b : Bool) (e : Edge) (found : List Bytes)
      (g : Graph)
      → EntersWell enter
      → All (IsCovered (visit_glob r chain enter path b e (ok found) g)) found
  unfolding visit_glob
  visit_glob-covers chain enter path b e found g n =
      unsorted (IsCovered (visit_glob r chain enter path b e (ok found) g)) found
        (visit_matches-covers chain enter path e.line (sort_by (λ s. s) found) _ n)

  visit_expanded-covers :
      (chain : List Bytes) (enter : Enter) (path : Bytes) (b : Bool) (e : Edge) (v : Bytes)
      (g : Graph)
      → EntersWell enter
      → ValueCovered r (visit_expanded r chain enter path b e (expand_pattern r v) g) v
  unfolding visit_expanded
  visit_expanded-covers chain enter path b e v g n pattern found q k =
      subst (λ o. All (IsCovered (visit_expanded r chain enter path b e o g)) found) (sym q)
        (subst
          (λ a.
            All (IsCovered (visit_glob r chain enter path b (record e { expanded = pattern }) a g))
              found)
          (sym k)
          (visit_glob-covers chain enter path b (record e { expanded = pattern }) found g n))

  visit_values-covers :
      (chain : List Bytes) (enter : Enter) (path : Bytes) (b : Bool) (line : ℕ) (text : Bytes)
      (vs : List Bytes) (g : Graph)
      → EntersWell enter
      → All (ValueCovered r (visit_values r chain enter path b line text vs g)) vs
  unfolding visit_values
  visit_values-covers chain enter path b line text [] g n = tt
  visit_values-covers chain enter path b line text (v ∷ vs) g n = (
    visit_values-keeps r (λ h. ValueCovered r h v) (value-kept r v).steady chain enter path b line
        text vs _ (enters (λ h. ValueCovered r h v) (value-kept r v) enter n)
        (visit_expanded-covers chain enter path b _ v g n),
    visit_values-covers chain enter path b line text vs _ n,
  )

  include_values-covers :
      (chain : List Bytes) (enter : Enter) (path : Bytes) (b : Bool) (line : ℕ) (text : Bytes)
      (vs : List Bytes) (g : Graph)
      → EntersWell enter
      → All (ValueCovered r (include_values r chain enter path b line text vs g)) vs
  unfolding include_values
  include_values-covers chain enter path b line text [] g n = tt
  include_values-covers chain enter path b line text (v ∷ vs) g n =
      visit_values-covers chain enter path b line text (v ∷ vs) g n

  visit_line-covers :
      (chain : List Bytes) (enter : Enter) (path : Bytes) (f : File) (index : ℕ) (l : Line)
      (g : Graph)
      → EntersWell enter
      → LineCovered r (visit_line r chain enter path f index l l.kind g) l
  unfolding visit_line
  visit_line-covers chain enter path f index l g n k e =
      let text = condition f (block_at f index) in
      let noted = note_condition r path (index + 1) text g in
      let generated = is_inside r (generated_lines r f) index in
      subst
        (λ kind. All (ValueCovered r (visit_line r chain enter path f index l kind g)) (values l))
        (sym k)
        (subst
          (λ (b : Bool).
            All
              (ValueCovered r (
                if b
                then include_values r chain enter path generated (index + 1) text (values l) noted
                else g))
              (values l))
          (sym e)
          (include_values-covers chain enter path generated (index + 1) text (values l) noted n))

  visit_lines-covers :
      (chain : List Bytes) (enter : Enter) (path : Bytes) (f : File) (index : ℕ) (ls : List Line)
      (g : Graph)
      → EntersWell enter
      → All (LineCovered r (visit_lines r chain enter path f index ls g)) ls
  unfolding visit_lines
  visit_lines-covers chain enter path f index [] g n = tt
  visit_lines-covers chain enter path f index (l ∷ ls) g n = (
    visit_lines-keeps r (λ h. LineCovered r h l) (line-kept r l).steady chain enter path f
        (index + 1) ls _ (enters (λ h. LineCovered r h l) (line-kept r l) enter n)
        (visit_line-covers chain enter path f index l g n),
    visit_lines-covers chain enter path f (index + 1) ls _ n,
  )

  pub visit_file-covers :
      (chain : List Bytes) (enter : Enter) (path : Bytes) (read : Result ReadFailure Bytes)
      (g : Graph)
      → EntersWell enter
      → r.read_file path ≡ read
      → ContentsCovered r (visit_file r chain enter path read g) path
  unfolding visit_file
  visit_file-covers chain enter path (err x) g n e contents q = absurd (cc)
  visit_file-covers chain enter path (ok c) g n e contents q =
      subst (λ t. All (LineCovered r (visit_file r chain enter path (ok c) g)) (parse t).lines)
        (ok_eq (sym e ∙ q))
        (visit_lines-covers (chain ++ (path ∷ [])) enter path (parse c) 0 (parse c).lines
          (change path (set_file r (parse c)) g) n)
