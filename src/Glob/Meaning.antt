-- ===== src/Glob/Meaning.antt =====
-- What a pattern means: a star stands for any bytes, a question mark for one.
use ssh_ui.Base.{
  ℕ, Bool, true, false, ◌||◌, ◌&&◌, [], ◌∷◌, ◌≡◌, refl, arith, Bytes, ◌==◌, if◌then◌else◌,
}

-- some rest of the text passes the test
unfoldable pub some_rest : (Bytes → Bool) → Bytes → Bool
some_rest f [] = f []
some_rest f (c ∷ s) = f (c ∷ s) || some_rest f s

unfoldable pub one_byte : ℕ → (Bytes → Bool) → Bytes → Bool
one_byte d f [] = false
one_byte d f (c ∷ s) = (d == b'?' || d == c) && f s

unfoldable pub is_empty : Bytes → Bool
is_empty [] = true
is_empty (c ∷ s) = false

unfoldable pub means : Bytes → Bytes → Bool
unfolding some_rest one_byte is_empty
means [] s = is_empty s
means (d ∷ p) s = if d == b'*' then some_rest (means p) s else one_byte d (means p) s

pub some_rest-head : (f : Bytes → Bool) (s : Bytes) → f s ≡ true → some_rest f s ≡ true
unfolding some_rest
some_rest-head f [] h = h
some_rest-head f (c ∷ s) h = rw h refl

-- a star behind a star adds nothing
pub some_rest-twice :
    (f : Bytes → Bool) (s : Bytes) → some_rest (some_rest f) s ≡ true → some_rest f s ≡ true
unfolding some_rest
some_rest-twice f [] h = h
some_rest-twice f (c ∷ s) h = ground (arith, some_rest-twice f s)

-- a byte behind a star takes at least one byte of the text
pub some_rest-one_byte :
    (d c : ℕ) (f : Bytes → Bool) (s : Bytes)
    → some_rest (one_byte d f) (c ∷ s) ≡ true
    → some_rest f s ≡ true
unfolding some_rest one_byte
some_rest-one_byte d c f [] h = ground arith
some_rest-one_byte d c f (e ∷ s) h =
    ground (arith, some_rest-head f (e ∷ s), some_rest-one_byte d e f s)
