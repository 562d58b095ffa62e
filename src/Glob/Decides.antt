-- ===== src/Glob/Decides.antt =====
-- The loop, and what a pattern means.
use ssh_ui.Base.{
  ℕ, zero, suc, ◌+◌, ◌*◌, ◌≤◌, ◌<◌, ◌≡◌, ◌↔◌, refl, sym, ap, subst, ◌∙◌, Bool, true, false, not,
  ◌||◌, none, some, [], ◌∷◌, arith, Bytes, ◌==◌, if◌then◌else◌, length, all,
}
use ssh_ui.Glob.{Answer, answer, Back, only_stars, retry, match_loop, match_pattern}
use ssh_ui.Glob.Meaning.{
  some_rest, one_byte, is_empty, means, some_rest-head, some_rest-twice, some_rest-one_byte,
}

-- A text without a star of its own.
abbrev pub IsPlain : Bytes → Type 0
IsPlain s = all (λ c. not (c == b'*')) s ≡ true

only_stars-means : (p : Bytes) → only_stars p ≡ means p []
unfolding only_stars means is_empty some_rest one_byte
only_stars-means [] = refl
only_stars-means (d ∷ p) = ground (arith, only_stars-means p)

module _ (d : ℕ) (p : Bytes) where
  byte-means :
      (c : ℕ) (s : Bytes)
      → (d == b'*') ≡ false
      → (d == b'?' || d == c) ≡ true
      → means (d ∷ p) (c ∷ s) ≡ means p s
  unfolding means one_byte
  byte-means c s e t = ground arith

  miss-means :
      (c : ℕ) (s : Bytes)
      → (d == b'*') ≡ false
      → (d == b'?' || d == c) ≡ false
      → means (d ∷ p) (c ∷ s) ≡ false
  unfolding means one_byte
  miss-means c s e t = ground arith

  star-means : (s : Bytes) → (d == b'*') ≡ true → means (d ∷ p) s ≡ some_rest (means p) s
  unfolding means
  star-means s e = ground arith

  byte-later :
      (c : ℕ) (s : Bytes)
      → (d == b'*') ≡ false
      → some_rest (means (d ∷ p)) (c ∷ s) ≡ true
      → some_rest (means p) s ≡ true
  unfolding means
  byte-later c s e h = some_rest-one_byte d c (means p) s (
      subst
        (λ b.
          some_rest (λ t. if b then some_rest (means p) t else one_byte d (means p) t) (c ∷ s)
          ≡ true)
        e h)

  star-later :
      (s : Bytes)
      → (d == b'*') ≡ true
      → some_rest (means (d ∷ p)) s ≡ true
      → some_rest (means p) s ≡ true
  unfolding means
  star-later s e h = some_rest-twice (means p) s (
      subst
        (λ b. some_rest (λ t. if b then some_rest (means p) t else one_byte d (means p) t) s ≡ true)
        e h)

-- `G` is the answer to the question asked at the start; the patterns in play are shorter than `k`.
module _ (G : Bool) (k : ℕ) where
  abbrev Saved : ℕ → Bytes → Bytes → Back → Type 0
  Saved m p s none = G ≡ true → means p s ≡ true
  Saved m p s (some (bp, bs)) =
      ((G ≡ true) ↔ (some_rest (means bp) bs ≡ true))
      × (means bp bs ≡ true → means p s ≡ true)
      × (length s ≤ length bs)
      × (length bs ≤ m)
      × (length bp < k)
      × IsPlain bs

  record Inv (fuel m : ℕ) (p s : Bytes) (back : Back) : Type 0 where
    now : means p s ≡ true → G ≡ true
    later : G ≡ true → some_rest (means p) s ≡ true
    saved : Saved m p s back
    plain : IsPlain s
    text : length s ≤ m
    pattern_size : length p < k
    enough : m * k + length p < fuel

  restart-Inv :
      {fuel m : ℕ} (p s : Bytes)
      → ((G ≡ true) ↔ (some_rest (means p) s ≡ true))
      → IsPlain s
      → length s ≤ m
      → length p < k
      → m * k + length p < fuel
      → Inv fuel m p s (some (p, s))
  restart-Inv p s e n a b c = record {
    now = λ h. e.1 (some_rest-head (means p) s h);
    later = e.0;
    saved = (e, λ h. h, omega arith, a, b, n);
    plain = n;
    text = a;
    pattern_size = b;
    enough = c;
  }

  byte-Inv :
      {fuel m : ℕ} (d c : ℕ) (p s : Bytes) (back : Back)
      → Inv (suc fuel) m (d ∷ p) (c ∷ s) back
      → (d == b'*') ≡ false
      → (d == b'?' || d == c) ≡ true
      → Inv fuel m p s back
  unfolding all
  byte-Inv {fuel} {m} d c p s back i e t = record {
    now = λ h. i.now (byte-means d p c s e t ∙ h);
    later = λ g. byte-later d p c s e (i.later g);
    saved = go back i.saved;
    plain = ground (arith, i.plain);
    text = omega (arith, i.text);
    pattern_size = omega (arith, i.pattern_size);
    enough = omega (arith, i.enough);
  }
    where
      go : (b : Back) → Saved m (d ∷ p) (c ∷ s) b → Saved m p s b
      go none h = λ g. sym (byte-means d p c s e t) ∙ h g
      go (some (bp, bs)) (q, down, l, r, z, n) =
          (q, λ h. sym (byte-means d p c s e t) ∙ down h, omega arith, r, z, n)

  Bool_eq : (b : Bool) → (b ≡ true → G ≡ true) → (G ≡ true → b ≡ true) → b ≡ G
  Bool_eq b f g = ground arith

  retry-answer :
      {fuel : ℕ} (m : ℕ) (p : Bytes) (c : ℕ) (s : Bytes) (back : Back)
      → ((n : ℕ) (q t : Bytes) (b : Back) → Inv fuel n q t b → match_loop fuel q t b ≡ answer G)
      → Inv (suc fuel) m p (c ∷ s) back
      → means p (c ∷ s) ≡ false
      → retry back (match_loop fuel) ≡ answer G
  unfolding retry all some_rest
  retry-answer m p c s none again i e = ap answer (Bool_eq false (λ h. cc) (λ g. sym e ∙ i.saved g))
  retry-answer m p c s (some (bp, [])) again i e =
      let (q, down, l, r, z, n) = i.saved in absurd (omega arith)
  retry-answer zero p c s (some (bp, x ∷ bs)) again i e =
      let (q, down, l, r, z, n) = i.saved in absurd (omega arith)
  retry-answer (suc m) p c s (some (bp, x ∷ bs)) again i e =
      let (q, down, l, r, z, n) = i.saved in
      again m bp bs (some (bp, bs)) (
        restart-Inv bp bs (λ g. past (q.0 g) down, λ h. q.1 (rw h (ground arith))) (ground arith)
          (omega arith) z (omega (arith, i.enough)))
    where
      past :
          (some_rest (means bp) (x ∷ bs) ≡ true)
          → (means bp (x ∷ bs) ≡ true → means p (c ∷ s) ≡ true)
          → some_rest (means bp) bs ≡ true
      past h down = ground arith

  not_star :
      (d c : ℕ) (s : Bytes)
      → IsPlain (c ∷ s)
      → (d == b'?' || d == c) ≡ true
      → (d == b'*') ≡ true
      → ⊥
  unfolding all
  not_star d c s h t e = ground arith

  loop-answer :
      (fuel m : ℕ) (p s : Bytes) (back : Back)
      → Inv fuel m p s back
      → match_loop fuel p s back ≡ answer G
  unfolding match_loop
  loop-answer zero m p s back i = absurd (omega (arith, i.enough))
  loop-answer (suc fuel) m p [] back i = ap answer (
      Bool_eq (only_stars p) (λ h. i.now (sym (only_stars-means p) ∙ h))
        (λ g. only_stars-means p ∙ last (i.later g)))
    where
      last : some_rest (means p) [] ≡ true → means p [] ≡ true
      last h = unfold some_rest in h
  loop-answer (suc fuel) m [] (c ∷ s) back i =
      retry-answer m [] c s back (loop-answer fuel) i (unfold means is_empty in refl)
  loop-answer (suc fuel) m (d ∷ p) (c ∷ s) back i =
      step (loop-answer fuel) (d == b'?' || d == c) (d == b'*') refl refl
    where
      round : Bool → Bool → Answer
      round t e = elim t [
        | true ↦ match_loop fuel p s back
        | false ↦ elim e [
          | true ↦ match_loop fuel p (c ∷ s) (some (p, c ∷ s))
          | false ↦ retry back (match_loop fuel)
        ]
      ]

      step :
          ((n : ℕ) (q t : Bytes) (b : Back) → Inv fuel n q t b → match_loop fuel q t b ≡ answer G)
          → (t e : Bool) → (d == b'?' || d == c) ≡ t
          → (d == b'*') ≡ e
          → round t e ≡ answer G
      step again true true ht he = absurd (not_star d c s i.plain ht he)
      step again true false ht he = again m p s back (byte-Inv d c p s back i he ht)
      step again false true ht he = again m p (c ∷ s) (some (p, c ∷ s)) (
          restart-Inv p (c ∷ s)
            (λ g. star-later d p (c ∷ s) he (i.later g), λ h. i.now (star-means d p (c ∷ s) he ∙ h))
            i.plain i.text (omega (arith, i.pattern_size)) (omega (arith, i.enough)))
      step again false false ht he =
          retry-answer m (d ∷ p) c s back again i (miss-means d p c s he ht)

-- For a text without a star of its own the loop ends within its fuel, and its answer is whether the
-- text can be cut so that each star of the pattern stands for any bytes, each question mark for one
-- and each other byte for itself.
pub match_pattern-means :
    (pattern value : Bytes)
    → IsPlain value
    → match_pattern pattern value ≡ answer (means pattern value)
unfolding match_pattern
match_pattern-means p s n = loop-answer (means p s) (length p + 1) _ (length s) p s none (record {
  now = λ h. h;
  later = λ h. some_rest-head (means p) s h;
  saved = λ h. h;
  plain = n;
  text = omega arith;
  pattern_size = omega arith;
  enough = omega arith;
})

-- The pattern that is one star does not match a text that begins with a star and has more bytes:
-- the loop takes the two stars for the same byte, and keeps no place to come back to.
pub match_pattern-star :
    (c : ℕ) (s : Bytes) → match_pattern (b'*' ∷ []) (b'*' ∷ c ∷ s) ≡ answer false
unfolding match_pattern match_loop retry
match_pattern-star c s =
    subst (λ fuel. match_loop fuel (b'*' ∷ []) (b'*' ∷ c ∷ s) none ≡ answer false) two_rounds refl
  where
    two_rounds :
        suc (suc (2 * length s + 4))
        ≡ (length {A = ℕ} (b'*' ∷ c ∷ s) + 1) * (length {A = ℕ} (b'*' ∷ []) + 1)
    two_rounds = omega arith
