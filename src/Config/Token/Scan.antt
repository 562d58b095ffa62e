-- ===== src/Config/Token/Scan.antt =====
-- internal/config/token.go: the loop of `splitArguments`.
use ssh_ui.Base.{
  ℕ, zero, suc, ◌≤◌, ◌<◌, ◌≡◌, ◌≢◌, refl, sym, ap, ◌∙◌, false, inl, inr, Option, none, some, List,
  [], ◌∷◌, ◌++◌, Bytes, cut_byte, take_while, drop_while, ◌==◌, length, length-append,
  length-drop_while, take_while-drop_while, cut_byte-eq-some, arith, ==_iff, Bool-cases, StopsAt,
  drop_while-StopsAt, subst,
}
use mathlib.Core.List.{append_assoc, append-nil}
use ssh_ui.Config.Token.{
  Argument, is_space, is_bare, quoted, Split, arguments, refused, unfinished, prepend, Token, token,
  bad, quoted_token, bare_token, round, and_then, read_token, split_loop, split_arguments,
}
use ssh_ui.Config.Line.{render_arguments}

-- The argument read and the text left make up the text that was there, and the argument is some
-- byte of it.
abbrev Reads : Bytes → Bytes → Token → Type 0
Reads lead text bad = Unit
Reads lead text (token a rest) = (a.lead ≡ lead) × (a.raw ++ rest ≡ text) × (0 < length a.raw)

quoted_append :
    (value rest after : Bytes)
    → rest ≡ value ++ (b'"' ∷ after)
    → quoted value ++ after ≡ b'"' ∷ rest
quoted_append value rest after p = rw p (simp append_assoc)

quoted_token-Reads :
    (lead rest : Bytes) (o : Option (Bytes × Bytes))
    → cut_byte b'"' rest ≡ o
    → Reads lead (b'"' ∷ rest) (quoted_token lead o)
unfolding quoted_token
quoted_token-Reads lead rest none e = tt
quoted_token-Reads lead rest (some (value, [])) e =
    (refl, quoted_append value rest [] (cut_byte-eq-some b'"' rest e).0, omega arith)
quoted_token-Reads lead rest (some (value, c ∷ after)) e =
    ground (arith, quoted_append value rest (c ∷ after) (cut_byte-eq-some b'"' rest e).0)

bare_token-Reads :
    (lead value left text : Bytes)
    → value ++ left ≡ text
    → 0 < length value
    → Reads lead text (bare_token lead value left)
unfolding bare_token
bare_token-Reads lead value [] text e n = (refl, e, n)
bare_token-Reads lead value (c ∷ left) text e n = ground arith

-- a byte that is neither a space nor a quotation mark belongs to an unquoted argument
take_while-bare_pos :
    (c : ℕ) (rest : Bytes)
    → is_space c ≡ false
    → (c == b'"') ≡ false
    → 0 < length (take_while is_bare (c ∷ rest))
unfolding take_while
take_while-bare_pos c rest s q = rw (s, q) (omega arith)

pub read_token-Reads :
    (lead : Bytes) (c : ℕ) (rest : Bytes)
    → is_space c ≡ false
    → Reads lead (c ∷ rest) (read_token lead c rest)
read_token-Reads lead c rest s = elim (Bool-cases (c == b'"')) [
  | inl q ↦
      unfold read_token in
      rw q (rw ((==_iff c b'"').0 q) (quoted_token-Reads lead rest (cut_byte b'"' rest) refl))
  | inr q ↦
      unfold read_token in
      rw q (
        bare_token-Reads lead _ _ (c ∷ rest) (take_while-drop_while is_bare (c ∷ rest))
          (take_while-bare_pos c rest s q))
]

abbrev Rebuilds : Bytes → Split → Type 0
Rebuilds input (arguments xs trailing) = render_arguments xs ++ trailing ≡ input
Rebuilds input _ = Unit

prepend-Rebuilds :
    (a : Argument) (lead text rest input : Bytes) (s : Split)
    → a.lead ≡ lead
    → a.raw ++ rest ≡ text
    → lead ++ text ≡ input
    → Rebuilds rest s
    → Rebuilds input (prepend a s)
unfolding prepend render_arguments
prepend-Rebuilds a lead text rest input refused l r i h = tt
prepend-Rebuilds a lead text rest input unfinished l r i h = tt
prepend-Rebuilds a lead text rest input (arguments xs trailing) l r i h =
    append_assoc a.lead (a.raw ++ render_arguments xs) trailing
    ∙ ap (◌++◌ a.lead) (append_assoc a.raw (render_arguments xs) trailing)
    ∙ rw (h, r, l) i

round-Rebuilds :
    (next : Bytes → Split) (lead text : Bytes)
    → ((rest : Bytes) → Rebuilds rest (next rest))
    → StopsAt is_space text
    → Rebuilds (lead ++ text) (round next lead text)
unfolding round render_arguments and_then
round-Rebuilds next lead [] h s = sym (append-nil lead)
round-Rebuilds next lead (c ∷ rest) h s =
    go (read_token lead c rest) (read_token-Reads lead c rest s)
  where
    go : (t : Token) → Reads lead (c ∷ rest) t → Rebuilds (lead ++ (c ∷ rest)) (and_then t next)
    go bad r = tt
    go (token a rest') r =
        prepend-Rebuilds a lead (c ∷ rest) rest' (lead ++ (c ∷ rest)) (next rest') r.0 r.1 refl
          (h rest')

pub split_loop-Rebuilds : (fuel : ℕ) (input : Bytes) → Rebuilds input (split_loop fuel input)
unfolding split_loop
split_loop-Rebuilds zero input = tt
split_loop-Rebuilds (suc fuel) input =
    subst
      (λ t.
        Rebuilds t
          (round (split_loop fuel) (take_while is_space input) (drop_while is_space input)))
      (take_while-drop_while is_space input)
      (round-Rebuilds (split_loop fuel) _ _ (split_loop-Rebuilds fuel)
        (drop_while-StopsAt is_space input))

-- The arguments and the trailing space are the text, byte for byte.
pub split_arguments-lossless :
    (input : Bytes) {xs : List Argument} {trailing : Bytes}
    → split_arguments input ≡ arguments xs trailing
    → render_arguments xs ++ trailing ≡ input
split_arguments-lossless input e =
    subst (Rebuilds input) e
      (unfold split_arguments in split_loop-Rebuilds (suc (length input)) input)

prepend-ne : (a : Argument) (s : Split) → s ≢ unfinished → prepend a s ≢ unfinished
unfolding prepend
prepend-ne a (arguments xs t) h = λ e. cc
prepend-ne a refused h = λ e. cc
prepend-ne a unfinished h = λ e. h refl

shorter :
    (a : Argument) (rest rest' text : Bytes)
    → a.raw ++ rest' ≡ text
    → 0 < length a.raw
    → length rest' < length text
shorter a rest rest' text e n = omega (arith, ap length e, length-append {0} a.raw rest')

round-ne :
    (fuel : ℕ) (lead text : Bytes)
    → ((rest : Bytes) → length rest < fuel → split_loop fuel rest ≢ unfinished)
    → StopsAt is_space text
    → length text ≤ fuel
    → round (split_loop fuel) lead text ≢ unfinished
unfolding round and_then
round-ne fuel lead [] h s n = λ e. cc
round-ne fuel lead (c ∷ rest) h s n = go (read_token lead c rest) (read_token-Reads lead c rest s)
  where
    go : (t : Token) → Reads lead (c ∷ rest) t → and_then t (split_loop fuel) ≢ unfinished
    go bad r = λ e. cc
    go (token a rest') r =
        prepend-ne a (split_loop fuel rest')
          (h rest' (omega (arith, shorter a rest rest' (c ∷ rest) r.1 r.2)))

split_loop-ne :
    (fuel : ℕ) (input : Bytes) → length input < fuel → split_loop fuel input ≢ unfinished
unfolding split_loop
split_loop-ne zero input h = absurd (omega arith)
split_loop-ne (suc fuel) input h =
    round-ne fuel (take_while is_space input) (drop_while is_space input) (split_loop-ne fuel)
      (drop_while-StopsAt is_space input) (omega (arith, length-drop_while {0} is_space input))

-- The fuel of `splitArguments` is enough for every text.
pub split_arguments-ne-unfinished : (input : Bytes) → split_arguments input ≢ unfinished
unfolding split_arguments
split_arguments-ne-unfinished input = split_loop-ne (suc (length input)) input (omega arith)
