-- ===== src/Base/Parts.antt =====
-- `strings.Split` and `strings.Join` at one byte, and the trimming functions.
use Prim.Native.Nat.{ℕ}
use mathlib.Core.Path.{◌≡◌, refl, ap}
use mathlib.Core.Bool.{Bool, true, false, ◌&&◌, ◌||◌}
use mathlib.Core.List.{List, [], ◌∷◌, ◌++◌}
use native.Mathlib.Omega.{arith}
use ssh_ui.Base.Tests.{if◌then◌else◌, leb, ◌==◌}
use ssh_ui.Base.Lists.{drop_while}
use ssh_ui.Base.Text.{Bytes}

-- one more byte of the first part
abbrev onto : ℕ → List Bytes → List Bytes
onto c [] = (c ∷ []) ∷ []
onto c (part ∷ parts) = (c ∷ part) ∷ parts

unfoldable pub split_byte : ℕ → Bytes → List Bytes
split_byte b [] = [] ∷ []
split_byte b (c ∷ cs) = let rest = split_byte b cs in if c == b then [] ∷ rest else onto c rest

unfoldable pub join : Bytes → List Bytes → Bytes
join sep [] = []
join sep (part ∷ []) = part
join sep (part ∷ next ∷ parts) = part ++ (sep ++ join sep (next ∷ parts))

abbrev pub NonEmpty {ℓ} : {A : Type ℓ} → List A → Type 0
NonEmpty [] = ⊥
NonEmpty (x ∷ xs) = Unit

pub split_byte-NonEmpty : (b : ℕ) (s : Bytes) → NonEmpty (split_byte b s)
unfolding split_byte
split_byte-NonEmpty b [] = tt
split_byte-NonEmpty b (c ∷ cs) = go (c == b) (split_byte b cs)
  where
    go : (t : Bool) (rest : List Bytes) → NonEmpty (if t then [] ∷ rest else onto c rest)
    go true rest = tt
    go false [] = tt
    go false (part ∷ parts) = tt

join-onto :
    (b c : ℕ) (parts : List Bytes)
    → NonEmpty parts
    → join (b ∷ []) (onto c parts) ≡ c ∷ join (b ∷ []) parts
unfolding join
join-onto b c [] h = absurd h
join-onto b c (part ∷ []) h = refl
join-onto b c (part ∷ next ∷ parts) h = refl

join-nil :
    (b : ℕ) (parts : List Bytes)
    → NonEmpty parts
    → join (b ∷ []) ([] ∷ parts) ≡ b ∷ join (b ∷ []) parts
unfolding join
join-nil b [] h = absurd h
join-nil b (part ∷ parts) h = refl

-- The parts, joined at the byte, are the text.
pub join-split_byte : (b : ℕ) (s : Bytes) → join (b ∷ []) (split_byte b s) ≡ s
unfolding split_byte
join-split_byte b [] = unfold join in refl
join-split_byte b (c ∷ cs) = ground (
  arith,
  join-split_byte b cs,
  join-nil b (split_byte b cs) (split_byte-NonEmpty b cs),
  join-onto b c (split_byte b cs) (split_byte-NonEmpty b cs),
)

-- `strings.TrimSuffix` and `strings.TrimPrefix` of one byte
unfoldable pub trim_suffix : ℕ → Bytes → Bytes
trim_suffix b [] = []
trim_suffix b (c ∷ []) = if c == b then [] else c ∷ []
trim_suffix b (c ∷ d ∷ cs) = c ∷ trim_suffix b (d ∷ cs)

unfoldable pub trim_prefix : ℕ → Bytes → Bytes
trim_prefix b [] = []
trim_prefix b (c ∷ cs) = if c == b then cs else c ∷ cs

abbrev onto_unless : Bool → ℕ → Bytes → Bytes
onto_unless drop c [] = if drop then [] else c ∷ []
onto_unless drop c (d ∷ rest) = c ∷ d ∷ rest

-- `strings.TrimRight`
unfoldable pub trim_right : (ℕ → Bool) → Bytes → Bytes
trim_right p [] = []
trim_right p (c ∷ cs) = onto_unless (p c) c (trim_right p cs)

pub trim_suffix-append : (b : ℕ) (s : Bytes) → trim_suffix b (s ++ (b ∷ [])) ≡ s
unfolding trim_suffix
trim_suffix-append b [] = ground arith
trim_suffix-append b (c ∷ []) = ground arith
trim_suffix-append b (c ∷ d ∷ cs) = ap (◌∷◌ c) (trim_suffix-append b (d ∷ cs))

-- space, in ASCII texts
unfoldable pub is_white : ℕ → Bool
is_white c = c == b' ' || leb 9 c && leb c 13

-- `strings.TrimSpace` with the white space of ASCII; the source also takes off that of Unicode
unfoldable pub trim_space : Bytes → Bytes
unfolding is_white
trim_space s = trim_right is_white (drop_while is_white s)
