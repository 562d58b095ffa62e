-- ===== src/Base/Lists.antt =====
-- Lists over the native numbers: lengths, prefixes, and the scanning loops
-- `for index < len(s) && p(s[index]) { index++ }` as the part passed and the part left.
use Prim.Native.Nat.{ℕ, zero, suc, ◌+◌, ◌≤◌}
use mathlib.Core.Path.{◌≡◌, refl, ap}
use mathlib.Core.Bool.{Bool, true, false, ◌&&◌}
use mathlib.Core.Option.{Option, none, some}
use mathlib.Core.List.{List, [], ◌∷◌, ◌++◌}
use native.Mathlib.Omega.{arith}
use ssh_ui.Base.Tests.{if◌then◌else◌}

module _ {ℓ} {A : Type ℓ} where
  abbrev pub length : List A → ℕ
  length [] = 0
  length (x ∷ xs) = suc (length xs)

  abbrev pub get_elem? : List A → ℕ → Option A
  get_elem? [] i = none
  get_elem? (x ∷ xs) zero = some x
  get_elem? (x ∷ xs) (suc i) = get_elem? xs i

  pub length-append : (xs ys : List A) → length (xs ++ ys) ≡ length xs + length ys
  length-append [] ys = omega arith
  length-append (x ∷ xs) ys = omega (arith, length-append xs ys)

  abbrev pub All {κ} : (A → Type κ) → List A → Type κ
  All P [] = Unit
  All P (x ∷ xs) = P x × All P xs

  pub All-append {κ} : (P : A → Type κ) (xs ys : List A) → All P xs → All P ys → All P (xs ++ ys)
  All-append P [] ys h k = k
  All-append P (x ∷ xs) ys h k = (h.0, All-append P xs ys h.1 k)

  unfoldable pub all : (A → Bool) → List A → Bool
  all p [] = true
  all p (x ∷ xs) = p x && all p xs

  -- The part that a scanning loop passes over, and what it leaves.
  unfoldable pub take_while : (A → Bool) → List A → List A
  take_while p [] = []
  take_while p (x ∷ xs) = let rest = take_while p xs in if p x then x ∷ rest else []

  unfoldable pub drop_while : (A → Bool) → List A → List A
  drop_while p [] = []
  drop_while p (x ∷ xs) = let rest = drop_while p xs in if p x then rest else x ∷ xs

  pub take_while-drop_while : (p : A → Bool) (xs : List A) → take_while p xs ++ drop_while p xs ≡ xs
  unfolding take_while drop_while
  take_while-drop_while p [] = refl
  take_while-drop_while p (x ∷ xs) =
      elim (p x)
        as (λ b.
          (if b then x ∷ take_while p xs else []) ++ (if b then drop_while p xs else x ∷ xs)
          ≡ x ∷ xs) [ true ↦ ap (◌∷◌ x) (take_while-drop_while p xs) | false ↦ refl ]

  pub length-drop_while : (p : A → Bool) (xs : List A) → length (drop_while p xs) ≤ length xs
  unfolding drop_while
  length-drop_while p [] = omega arith
  length-drop_while p (x ∷ xs) =
      elim (p x) as (λ b. length (if b then drop_while p xs else x ∷ xs) ≤ suc (length xs)) [
        | true ↦ omega (arith, length-drop_while p xs)
        | false ↦ omega arith
      ]

  pub all-take_while : (p : A → Bool) (xs : List A) → all p (take_while p xs) ≡ true
  unfolding take_while all
  all-take_while p [] = refl
  all-take_while p (x ∷ xs) = ground (arith, all-take_while p xs)

  -- Where the scan stops: at the end, or at an element that fails the test.
  abbrev pub StopsAt : (A → Bool) → List A → Type 0
  StopsAt p [] = Unit
  StopsAt p (x ∷ xs) = p x ≡ false

  pub drop_while-StopsAt : (p : A → Bool) (xs : List A) → StopsAt p (drop_while p xs)
  unfolding drop_while
  drop_while-StopsAt p [] = tt
  drop_while-StopsAt p (x ∷ xs) = ground (arith, drop_while-StopsAt p xs)

  pub take_while-append :
      (p : A → Bool) (xs ys : List A)
      → all p xs ≡ true
      → StopsAt p ys
      → take_while p (xs ++ ys) ≡ xs
  unfolding take_while all
  take_while-append p [] [] h s = refl
  take_while-append p [] (y ∷ ys) h s = ground arith
  take_while-append p (x ∷ xs) ys h s = ground (arith, take_while-append p xs ys)

  pub drop_while-append :
      (p : A → Bool) (xs ys : List A)
      → all p xs ≡ true
      → StopsAt p ys
      → drop_while p (xs ++ ys) ≡ ys
  unfolding drop_while all
  drop_while-append p [] [] h s = refl
  drop_while-append p [] (y ∷ ys) h s = ground arith
  drop_while-append p (x ∷ xs) ys h s = ground (arith, drop_while-append p xs ys)

pub some_eq {ℓ} : {A : Type ℓ} {a b : A} → some a ≡ some b → a ≡ b
some_eq h = cc
