-- ===== src/Groups/Region/Found.antt =====
-- internal/application/region.go: where `FindRegion` finds a region.
use ssh_ui.Base.{
  ℕ, zero, suc, ◌+◌, ◌-◌, ◌≤◌, ◌≡◌, ◌≢◌, refl, sym, ap, subst, ◌∙◌, Bool, true, false, Option, none,
  some, some_eq, List, [], ◌∷◌, ◌++◌, arith, if◌then◌else◌, ltb, length, All, Result, ok, err,
  ok_eq,
}
use ssh_ui.Config.Line.{Line}
use ssh_ui.Config.Parse.{File}
use ssh_ui.Config.Comment.{slice}
use ssh_ui.Edit.Header.{take_lines}
use ssh_ui.Groups.Region.{
  start_marker, end_marker, RegionError, region_damaged, is_marker, first_index, region_of,
  find_region, found_region, generated_region,
}

-- no line passes the test
abbrev pub Free : (Line → Bool) → List Line → Type 0
Free p ls = All (λ l. p l ≡ false) ls

module _ (p : Line → Bool) where
  pub first_index-append :
      (k n : ℕ) (xs ys : List Line)
      → Free p xs
      → length xs + k ≡ n
      → first_index p k (xs ++ ys) ≡ first_index p n ys
  unfolding first_index
  first_index-append k n [] ys h e = ap (λ i. first_index p i ys) (omega arith)
  first_index-append k n (x ∷ xs) ys h e =
      rw (h.0) (first_index-append (suc k) n xs ys h.1 (omega arith))

  first_index-head :
      (k : ℕ) (l : Line) (ls : List Line) → p l ≡ true → first_index p k (l ∷ ls) ≡ some k
  unfolding first_index
  first_index-head k l ls e = rw (first_index, e) refl

  pub first_index-none : (k : ℕ) (ls : List Line) → first_index p k ls ≡ none → Free p ls
  unfolding first_index
  first_index-none k [] h = tt
  first_index-none k (l ∷ ls) h = go (p l) refl (first_index-none (suc k) ls) h
    where
      go :
          (b : Bool)
          → p l ≡ b
          → (first_index p (suc k) ls ≡ none → Free p ls)
          → (elim b as (λ _. Option ℕ) [ true ↦ some k | false ↦ first_index p (suc k) ls ]) ≡ none
          → Free p (l ∷ ls)
      go true e f h = absurd (cc)
      go false e f h = (e, f h)

  -- the lines before the first that passes
  pub first_index-take :
      (k i : ℕ) (ls : List Line)
      → first_index p k ls ≡ some i
      → (k ≤ i) × Free p (take_lines (i - k) ls)
  unfolding first_index take_lines
  first_index-take k i [] h = absurd (cc)
  first_index-take k i (l ∷ ls) h = go (p l) refl (first_index-take (suc k) i ls) h
    where
      go :
          (b : Bool)
          → p l ≡ b
          → (first_index p (suc k) ls ≡ some i → (suc k ≤ i) × Free p (take_lines (i - suc k) ls))
          → (elim b as (λ _. Option ℕ) [ true ↦ some k | false ↦ first_index p (suc k) ls ])
            ≡ some i
          → (k ≤ i) × Free p (take_lines (i - k) (l ∷ ls))
      go true e f h =
          let same : k ≡ i = some_eq h in
          let none_before : 0 ≡ i - k = omega arith in
          (omega arith, subst (λ n. Free p (take_lines n (l ∷ ls))) none_before tt)
      go false e f h =
          let (le, rest) = f h in
          let one_more : suc (i - suc k) ≡ i - k = omega arith in
          (omega arith, subst (λ n. Free p (take_lines n (l ∷ ls))) one_more (e, rest))

  take_lines-Free :
      (n m : ℕ) (ls : List Line) → n ≤ m → Free p (take_lines m ls) → Free p (take_lines n ls)
  unfolding take_lines
  take_lines-Free zero m ls h f = tt
  take_lines-Free (suc n) zero ls h f = absurd (omega arith)
  take_lines-Free (suc n) (suc m) [] h f = tt
  take_lines-Free (suc n) (suc m) (l ∷ ls) h f = (f.0, take_lines-Free n m ls (omega arith) f.1)

-- what `region_of` makes of two markers, by their order
abbrev span_of : Bool → ℕ → ℕ → Result RegionError (Option (ℕ × ℕ))
span_of b s e = if b then ok (some (s, e)) else err region_damaged

abbrev pub is_start : Line → Bool
is_start = is_marker start_marker

abbrev pub is_end : Line → Bool
is_end = is_marker end_marker

-- A file without a region has no marker.
pub find_region-none :
    (f : File) → find_region f ≡ ok none → Free is_start f.lines × Free is_end f.lines
unfolding find_region region_of
find_region-none f h = go _ _ refl refl h
  where
    go :
        (s e : Option ℕ)
        → first_index is_start 0 f.lines ≡ s
        → first_index is_end 0 f.lines ≡ e
        → region_of s e ≡ ok none
        → Free is_start f.lines × Free is_end f.lines
    go none none p q h =
        (first_index-none is_start 0 f.lines p, first_index-none is_end 0 f.lines q)
    go none (some e) p q h = absurd (cc)
    go (some s) none p q h = absurd (cc)
    go (some s) (some e) p q h = absurd (between (ltb s e) h)
      where
        between : (b : Bool) → span_of b s e ≢ ok none
        between true h = cc
        between false h = cc

minus_zero : (n : ℕ) → n - 0 ≡ n
minus_zero n = omega arith

-- Before the region that is found there is no marker.
pub find_region-some :
    (f : File) (start end : ℕ)
    → find_region f ≡ ok (some (start, end))
    → Free is_start (take_lines start f.lines) × Free is_end (take_lines start f.lines)
unfolding find_region region_of
find_region-some f start end h = go _ _ refl refl h
  where
    go :
        (s e : Option ℕ)
        → first_index is_start 0 f.lines ≡ s
        → first_index is_end 0 f.lines ≡ e
        → region_of s e ≡ ok (some (start, end))
        → Free is_start (take_lines start f.lines) × Free is_end (take_lines start f.lines)
    go none none p q h = absurd (cc)
    go none (some e) p q h = absurd (cc)
    go (some s) none p q h = absurd (cc)
    go (some s) (some e) p q h =
        let (a, b) = between (ltb s e) refl h in
        (
          subst (λ n. Free is_start (take_lines n f.lines)) (minus_zero s ∙ b)
              (first_index-take is_start 0 s f.lines p).1,
          subst (λ n. Free is_end (take_lines n f.lines)) b
              (take_lines-Free is_end s e f.lines a (
                subst (λ n. Free is_end (take_lines n f.lines)) (minus_zero e)
                  (first_index-take is_end 0 e f.lines q).1)),
        )
      where
        between :
            (b : Bool)
            → ltb s e ≡ b
            → span_of b s e ≡ ok (some (start, end))
            → (s ≤ e) × (s ≡ start)
        between true t h = (ground arith, ap (λ (x : ℕ × ℕ). x.0) (some_eq (ok_eq h)))
        between false t h = absurd (cc)

-- A region between lines without markers is found.
pub generated_region-append :
    (pre : List Line) (s : Line) (inner : List Line) (e : Line) (post : List Line)
    → Free is_start pre
    → Free is_end pre
    → is_start s ≡ true
    → Free is_end (s ∷ inner)
    → is_end e ≡ true
    → generated_region (record { lines = pre ++ (s ∷ (inner ++ (e ∷ post))) })
      ≡ some (length pre, length pre + suc (length inner))
unfolding generated_region find_region found_region region_of
generated_region-append pre s inner e post fs fe hs fi he =
    let n = length pre in
    let m = length inner in
    let first : first_index is_start 0 (pre ++ (s ∷ (inner ++ (e ∷ post)))) ≡ some n =
      first_index-append is_start 0 n pre (s ∷ (inner ++ (e ∷ post))) fs (omega arith)
      ∙ first_index-head is_start n s (inner ++ (e ∷ post)) hs in
    let last : first_index is_end 0 (pre ++ (s ∷ (inner ++ (e ∷ post)))) ≡ some (n + suc m) =
      first_index-append is_end 0 n pre (s ∷ (inner ++ (e ∷ post))) fe (omega arith)
      ∙ first_index-append is_end n (n + suc m) (s ∷ inner) (e ∷ post) fi (omega arith)
      ∙ first_index-head is_end (n + suc m) e post he in
    let before : ltb n (n + suc m) ≡ true = ground arith in
    subst
      (λ o.
        found_region (region_of o (first_index is_end 0 (pre ++ (s ∷ (inner ++ (e ∷ post))))))
        ≡ some (n, n + suc m))
      (sym first)
      (subst (λ o. found_region (region_of (some n) o) ≡ some (n, n + suc m)) (sym last)
        (subst (λ b. found_region (span_of b n (n + suc m)) ≡ some (n, n + suc m)) (sym before)
          refl))

pub slice-append :
    (pre xs post : List Line) → slice (pre ++ (xs ++ post)) (length pre) (length xs) ≡ xs
unfolding slice
slice-append [] [] post = refl
slice-append [] (x ∷ xs) post = ap (◌∷◌ x) (slice-append [] xs post)
slice-append (p ∷ pre) [] post = refl
slice-append (p ∷ pre) (x ∷ xs) post = slice-append pre (x ∷ xs) post
