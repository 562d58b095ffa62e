-- ===== src/Base/Text.antt =====
-- Go strings as lists of bytes, with the functions of `strings` that the program uses.
use Prim.Native.Nat.{ℕ, ◌+◌, ◌+◌}
use Prim.Native.Char.{code}
use Prim.Native.String.{String}
use mathlib.Core.Path.{◌≡◌, refl, sym, subst, ◌∙◌}
use mathlib.Core.Logic.{◌↔◌}
use mathlib.Core.Bool.{Bool, true, false, not, ◌&&◌, ◌||◌}
use mathlib.Core.Option.{Option, none, some}
use mathlib.Core.List.{List, [], ◌∷◌, ◌++◌, append-nil}
use native.Mathlib.Omega.{arith}
use ssh_ui.Base.Tests.{if◌then◌else◌, leb, if◌then◌else◌, ◌==◌}
use ssh_ui.Base.Lists.{
  all, take_while, drop_while, take_while-drop_while, all-take_while, StopsAt, drop_while-StopsAt,
  take_while-append, drop_while-append,
}

abbrev pub Bytes : Type 0
Bytes = List ℕ

-- The bytes of an ASCII literal.
abbrev pub codes : String → Bytes
codes String.[] = []
codes (String.◌∷◌ c s) = code c ∷ codes s

-- `a == b` on strings
unfoldable pub str_eq : Bytes → Bytes → Bool
str_eq [] [] = true
str_eq (x ∷ xs) (y ∷ ys) = x == y && str_eq xs ys
str_eq _ _ = false

pub str_eq_iff : (a b : Bytes) → (str_eq a b ≡ true) ↔ (a ≡ b)
unfolding str_eq
str_eq_iff (x ∷ a) (y ∷ b) = ground (arith, str_eq_iff a b)
str_eq_iff _ _ = ground arith

-- `strings.ToLower` on ASCII text
unfoldable pub ascii_lower : ℕ → ℕ
ascii_lower c = if leb b'A' c && leb c b'Z' then c + 32 else c

-- `strings.ToLower`, which leaves a byte that is not ASCII as it is: letters outside ASCII keep their
-- case here
unfoldable pub to_lower : Bytes → Bytes
unfolding ascii_lower
to_lower [] = []
to_lower (c ∷ cs) = ascii_lower c ∷ to_lower cs

-- `strings.IndexByte` with the slices before and behind the byte
abbrev pub is_not : ℕ → ℕ → Bool
is_not b c = not (c == b)

abbrev cut_rest : Bytes → Bytes → Option (Bytes × Bytes)
cut_rest before [] = none
cut_rest before (c ∷ after) = some (before, after)

unfoldable pub cut_byte : ℕ → Bytes → Option (Bytes × Bytes)
unfolding take_while drop_while
cut_byte b s = cut_rest (take_while (is_not b) s) (drop_while (is_not b) s)

-- `strings.ContainsRune` and `strings.ContainsAny`, for ASCII characters
unfoldable pub contains_byte : ℕ → Bytes → Bool
contains_byte b [] = false
contains_byte b (c ∷ cs) = c == b || contains_byte b cs

unfoldable pub contains_any : Bytes → Bytes → Bool
contains_any set [] = false
contains_any set (c ∷ cs) = contains_byte c set || contains_any set cs

-- `strings.HasPrefix`
unfoldable pub has_prefix : Bytes → Bytes → Bool
has_prefix s [] = true
has_prefix [] (p ∷ ps) = false
has_prefix (c ∷ cs) (p ∷ ps) = c == p && has_prefix cs ps

cut_rest-eq-some :
    (b : ℕ) (part left : Bytes) {before after : Bytes}
    → StopsAt (is_not b) left
    → cut_rest part left ≡ some (before, after)
    → (part ≡ before) × (left ≡ b ∷ after)
cut_rest-eq-some b part [] s h = ground arith
cut_rest-eq-some b part (c ∷ left) s h = ground arith

-- What was cut is the text before the byte, the byte, and the text behind it.
pub cut_byte-eq-some :
    (b : ℕ) (s : Bytes) {before after : Bytes}
    → cut_byte b s ≡ some (before, after)
    → (s ≡ before ++ (b ∷ after)) × (all (is_not b) before ≡ true)
cut_byte-eq-some b s {before = before} {after = after} h =
    let (p, q) =
      cut_rest-eq-some b (take_while (is_not b) s) (drop_while (is_not b) s) {before = before}
        {after = after} (drop_while-StopsAt (is_not b) s) (unfold cut_byte in h) in
    (
      rw (← p, ← q) (sym (take_while-drop_while (is_not b) s)),
      rw (← p) (all-take_while (is_not b) s),
    )

-- The text before the first `b` is cut off where it ends.
pub cut_byte-append :
    (b : ℕ) (before after : Bytes)
    → all (is_not b) before ≡ true
    → cut_byte b (before ++ (b ∷ after)) ≡ some (before, after)
cut_byte-append b before after h =
    let stop : StopsAt (is_not b) (b ∷ after) = ground arith in
    unfold cut_byte in
    rw
      (
        take_while-append (is_not b) before (b ∷ after) h stop,
        drop_while-append (is_not b) before (b ∷ after) h stop,
      )
      refl

take_while_all : (p : ℕ → Bool) (s : Bytes) → all p s ≡ true → drop_while p s ≡ []
unfolding all drop_while
take_while_all p [] h = refl
take_while_all p (c ∷ cs) h = ground (arith, take_while_all p cs)

-- A text without the byte is not cut.
pub cut_byte-eq-none : (b : ℕ) (s : Bytes) → all (is_not b) s ≡ true → cut_byte b s ≡ none
cut_byte-eq-none b s h = unfold cut_byte in rw (take_while_all (is_not b) s h) refl

cut_rest-eq-none : (part left : Bytes) → cut_rest part left ≡ none → left ≡ []
cut_rest-eq-none part [] h = refl
cut_rest-eq-none part (c ∷ left) h = cc

-- A text that is not cut does not hold the byte.
pub all-is_not : (b : ℕ) (s : Bytes) → cut_byte b s ≡ none → all (is_not b) s ≡ true
all-is_not b s h =
    let e =
      cut_rest-eq-none (take_while (is_not b) s) (drop_while (is_not b) s) (unfold cut_byte in h) in
    let whole : take_while (is_not b) s ≡ s =
      sym (append-nil (take_while (is_not b) s))
      ∙ subst (λ t. take_while (is_not b) s ++ t ≡ s) e (take_while-drop_while (is_not b) s) in
    subst (λ t. all (is_not b) t ≡ true) whole (all-take_while (is_not b) s)

pub str_eq_refl : (a : Bytes) → str_eq a a ≡ true
str_eq_refl a = (str_eq_iff a a).1 refl
