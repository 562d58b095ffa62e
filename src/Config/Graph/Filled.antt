-- ===== src/Config/Graph/Filled.antt =====
-- internal/config/graph.go: a walk covers the contents of each file that it adds.
use ssh_ui.Base.{
  ℕ, zero, suc, ◌≡◌, ◌⊎◌, inl, inr, refl, sym, subst, ◌∙◌, Bool, true, false, ◌||◌, none, some,
  List, [], ◌∷◌, ◌++◌, arith, Bytes, str_eq, str_eq_iff, str_eq_refl, lookup,
}
use ssh_ui.Config.Include.{Resolver}
use ssh_ui.Config.Graph.{Graph, diagnose, is_node, seen, visit_file, add_node, walk}
use ssh_ui.Config.Graph.Kept.{IsSteady, IsKept, seen-change, visit_file-keeps, walk-keeps}
use ssh_ui.Config.Graph.Covered.{IsCovered, seen-add_node, added, kept}
use ssh_ui.Config.Graph.Includes.{ContentsCovered, contents-kept}
use ssh_ui.Config.Graph.Included.{IsEntering, visit_file-covers}

module _ (r : Resolver) where
  -- the file that is walked is in the graph from then on
  pub walk-covers :
      (left : ℕ) (chain : List Bytes) (path : Bytes) (g : Graph)
      → IsCovered (walk r left chain path g) path
  unfolding walk
  walk-covers zero chain path g =
      visit_file-keeps r (λ h. IsCovered h path) (kept r path).steady chain none path
        (r.read_file path) (add_node r path g) tt (added r path g)
  walk-covers (suc left) chain path g =
      visit_file-keeps r (λ h. IsCovered h path) (kept r path).steady chain
        (some (walk r left (chain ++ (path ∷ [])))) path (r.read_file path) (add_node r path g)
        (λ match h s p.
          walk-keeps r (λ h. IsCovered h path) (kept r path) left (chain ++ (path ∷ [])) match h s
            p)
        (added r path g)

  walk-IsEntering : (left : ℕ) (chain : List Bytes) → IsEntering r (walk r left chain)
  walk-IsEntering left chain = record {
    keeps = λ P k match g s p. walk-keeps r P k left chain match g s p;
    covers = walk-covers left chain;
  }

  seen-steady : (path : Bytes) → IsSteady r (λ g. seen g path ≡ true)
  unfolding diagnose seen
  seen-steady path = record {
    diagnosed = λ severity code p line detail g h. h;
    changed = λ p f g h. seen-change p path f g ∙ h;
  }

  seen-kept : (path : Bytes) → IsKept r (λ g. seen g path ≡ true)
  seen-kept path = record {
    steady = seen-steady path;
    added = λ p g s h. seen-add_node r p path g ∙ or_second (str_eq p path) (seen g path) h;
  }
    where
      or_second : (a b : Bool) → b ≡ true → (a || b) ≡ true
      or_second a b h = ground arith

  seen-added : (path : Bytes) (g : Graph) → seen (add_node r path g) path ≡ true
  seen-added path g = seen-add_node r path path g ∙ rw (str_eq_refl path) refl

  pub walk-seen :
      (left : ℕ) (chain : List Bytes) (path : Bytes) (g : Graph)
      → seen (walk r left chain path g) path ≡ true
  unfolding walk
  walk-seen zero chain path g =
      visit_file-keeps r (λ h. seen h path ≡ true) (seen-steady path) chain none path
        (r.read_file path) (add_node r path g) tt (seen-added path g)
  walk-seen (suc left) chain path g =
      visit_file-keeps r (λ h. seen h path ≡ true) (seen-steady path) chain
        (some (walk r left (chain ++ (path ∷ [])))) path (r.read_file path) (add_node r path g)
        (λ match h s p.
          walk-keeps r (λ h. seen h path ≡ true) (seen-kept path) left (chain ++ (path ∷ [])) match
            h s p)
        (seen-added path g)

  -- The contents of each file of a graph are covered, but for the files that are still read.
  abbrev IsFilled : (Bytes → Type 0) → Graph → Type 0
  IsFilled Q g = (p : Bytes) → seen g p ≡ true → Q p ⊎ ContentsCovered r g p

  IsFilled-IsSteady : (Q : Bytes → Type 0) → IsSteady r (IsFilled Q)
  unfolding diagnose seen
  IsFilled-IsSteady Q = record {
    diagnosed = λ severity code path line detail g h p s.
        more (λ k. (contents-kept r p).steady.diagnosed severity code path line detail g k) (h p s);
    changed = λ path f g h p s.
        more (λ k. (contents-kept r p).steady.changed path f g k)
          (h p (sym (seen-change path p f g) ∙ s));
  }
    where
      more : {A B C : Type 0} → (B → C) → (A ⊎ B) → A ⊎ C
      more f (inl a) = inl a
      more f (inr b) = inr (f b)

  IsFilled-add_node :
      (Q : Bytes → Type 0) (path : Bytes) (g : Graph)
      → seen g path ≡ false
      → IsFilled Q g
      → IsFilled (λ p. Q p ⊎ (p ≡ path)) (add_node r path g)
  IsFilled-add_node Q path g fresh h p s =
      go (str_eq path p) refl (sym (seen-add_node r path p g) ∙ s)
    where
      old :
          (Q p ⊎ ContentsCovered r g p)
          → (Q p ⊎ (p ≡ path)) ⊎ ContentsCovered r (add_node r path g) p
      old (inl q) = inl (inl q)
      old (inr c) = inr ((contents-kept r p).added path g fresh c)

      go :
          (b : Bool)
          → str_eq path p ≡ b
          → (b || seen g p) ≡ true
          → (Q p ⊎ (p ≡ path)) ⊎ ContentsCovered r (add_node r path g) p
      go true e k = inl (inr (sym ((str_eq_iff path p).0 e)))
      go false e k = old (h p k)

  read_now :
      (Q : Bytes → Type 0) (path : Bytes) (g : Graph)
      → ContentsCovered r g path
      → IsFilled (λ p. Q p ⊎ (p ≡ path)) g
      → IsFilled Q g
  read_now Q path g here h p s = go (h p s)
    where
      go : ((Q p ⊎ (p ≡ path)) ⊎ ContentsCovered r g p) → Q p ⊎ ContentsCovered r g p
      go (inl (inl q)) = inl q
      go (inl (inr e)) = inr (subst (ContentsCovered r g) (sym e) here)
      go (inr c) = inr c

  walk-IsFilled :
      (Q : Bytes → Type 0) (left : ℕ) (chain : List Bytes) (path : Bytes) (g : Graph)
      → seen g path ≡ false
      → IsFilled Q g
      → IsFilled Q (walk r left chain path g)
  unfolding walk
  walk-IsFilled Q zero chain path g s h =
      let start = add_node r path g in
      read_now Q path (visit_file r chain none path (r.read_file path) start)
        (visit_file-covers r chain none path (r.read_file path) start tt refl)
        (visit_file-keeps r (IsFilled (λ p. Q p ⊎ (p ≡ path)))
          (IsFilled-IsSteady (λ p. Q p ⊎ (p ≡ path))) chain none path (r.read_file path) start tt
          (IsFilled-add_node Q path g s h))
  walk-IsFilled Q (suc left) chain path g s h =
      let start = add_node r path g in
      let deeper = walk r left (chain ++ (path ∷ [])) in
      read_now Q path (visit_file r chain (some deeper) path (r.read_file path) start)
        (visit_file-covers r chain (some deeper) path (r.read_file path) start
          (walk-IsEntering left (chain ++ (path ∷ []))) refl)
        (visit_file-keeps r (IsFilled (λ p. Q p ⊎ (p ≡ path)))
          (IsFilled-IsSteady (λ p. Q p ⊎ (p ≡ path))) chain (some deeper) path (r.read_file path)
          start
          (λ match k t p.
            walk-IsFilled (λ q. Q q ⊎ (q ≡ path)) left (chain ++ (path ∷ [])) match k t p)
          (IsFilled-add_node Q path g s h))

  -- a walk that begins with an empty graph
  pub walk-contents :
      (left : ℕ) (path : Bytes) (g : Graph)
      → g.nodes ≡ []
      → (p : Bytes) → seen (walk r left [] path g) p ≡ true
      → ContentsCovered r (walk r left [] path g) p
  unfolding seen is_node
  walk-contents left path g e p s = go (
      walk-IsFilled (λ q. ⊥) left [] path g (unseen path)
        (λ q k. absurd (contrary (sym (unseen q) ∙ k))) p s)
    where
      unseen : (q : Bytes) → seen g q ≡ false
      unseen q = subst (λ ns. is_node (lookup q ns) ≡ false) (sym e) empty
        where
          empty : is_node (lookup q []) ≡ false
          empty = unfold is_node lookup in refl

      contrary : false ≡ true → ⊥
      contrary k = cc

      go :
          (⊥ ⊎ ContentsCovered r (walk r left [] path g) p)
          → ContentsCovered r (walk r left [] path g) p
      go (inl k) = absurd k
      go (inr c) = c
