-- ===== src/Config/Token/Quote.antt =====
-- internal/config/token.go: how a value is spelled, and the reading of its spelling.
use ssh_ui.Base.{
  ℕ, zero, suc, ◌<◌, ◌≡◌, ◌≢◌, refl, sym, ap, subst, ◌∙◌, Bool, true, false, none, some, List, [],
  ◌∷◌, ◌++◌, Bytes, codes, take_while, drop_while, ◌==◌, if◌then◌else◌, length, length-append,
  take_while-append, drop_while-append, cut_byte-append, arith, StopsAt, some_eq, contains_any,
  contains_byte, has_prefix, all, is_not,
}
use mathlib.Core.List.{append_assoc}
use ssh_ui.Config.Token.{
  Argument, is_space, is_bare, unquotable, needs_quotes, quoted, render_argument, Split, arguments,
  prepend, token, quoted_token, bare_token, read_token, and_then, round, split_loop,
  split_arguments,
}
use ssh_ui.Config.Line.{render_arguments}

-- The two ways in which a value stands in the text.
pub data Spells : Bytes → Bytes → Type 0 where
  in_quotes :
      {raw value : Bytes} → raw ≡ quoted value → all (is_not b'"') value ≡ true → Spells raw value
  plain :
      {raw value : Bytes} → raw ≡ value → all is_bare value ≡ true → value ≢ [] → Spells raw value

-- An argument ends at a space or with the text.
abbrev pub AtBreak : Bytes → Type 0
AtBreak [] = Unit
AtBreak (c ∷ _) = is_space c ≡ true

no_quotes : (v : Bytes) → contains_any unquotable v ≡ false → all (is_not b'"') v ≡ true
unfolding contains_any contains_byte all
no_quotes [] h = refl
no_quotes (c ∷ v) h = ground (arith, no_quotes v)

all-is_bare :
    (v : Bytes)
    → contains_any unquotable v ≡ false
    → contains_any (codes " \t") v ≡ false
    → all is_bare v ≡ true
unfolding contains_any contains_byte all is_space
all-is_bare [] h k = refl
all-is_bare (c ∷ v) h k = ground (arith, all-is_bare v)

-- an argument that `Values` does not take for the beginning of a comment
abbrev pub IsNoComment : Bytes → Type 0
IsNoComment raw = has_prefix raw (codes "#") ≡ false

needs_quotes-false :
    (v : Bytes)
    → needs_quotes v ≡ false
    → (contains_any (codes " \t") v ≡ false) × (v ≢ []) × IsNoComment v
unfolding needs_quotes
needs_quotes-false [] h = cc
needs_quotes-false (c ∷ v) h = (ground arith, λ e. cc, ground arith)

-- A value that `RenderArgument` accepts keeps its lead and its value, and is spelled one way.
pub render_argument-Spells :
    (lead v : Bytes) {a : Argument}
    → render_argument lead v ≡ some a
    → (a.lead ≡ lead) × (a.value ≡ v) × Spells a.raw v × IsNoComment a.raw
unfolding render_argument has_prefix
render_argument-Spells lead v {a} h = go (contains_any unquotable v) (needs_quotes v) refl refl h
  where
    given :
        {r : Bytes}
        → record { lead = lead; raw = r; value = v } ≡ a
        → Spells r v
        → IsNoComment r
        → (a.lead ≡ lead) × (a.value ≡ v) × Spells a.raw v × IsNoComment a.raw
    given p sp nc = (
      ap (λ (x : Argument). x.lead) (sym p),
      ap (λ (x : Argument). x.value) (sym p),
      subst (λ (x : Argument). Spells x.raw v) p sp,
      subst (λ (x : Argument). IsNoComment x.raw) p nc,
    )

    go :
        (b q : Bool)
        → contains_any unquotable v ≡ b
        → needs_quotes v ≡ q
        → (if b
            then none
            else if q
            then some (record { lead = lead; raw = quoted v; value = v })
            else some (record { lead = lead; raw = v; value = v }))
          ≡ some a
        → (a.lead ≡ lead) × (a.value ≡ v) × Spells a.raw v × IsNoComment a.raw
    go true q e f k = absurd (cc)
    go false true e f k = let p = some_eq k in given p (in_quotes refl (no_quotes v e)) refl
    go false false e f k =
        let p = some_eq k in
        let (n, ne, nc) = needs_quotes-false v f in given p (plain refl (all-is_bare v e n) ne) nc

quoted_token-AtBreak :
    (lead v rest : Bytes)
    → AtBreak rest
    → quoted_token lead (some (v, rest))
      ≡ token (record { lead = lead; raw = quoted v; value = v }) rest
unfolding quoted_token
quoted_token-AtBreak lead v [] h = refl
quoted_token-AtBreak lead v (c ∷ rest) h = rw h

bare_token-AtBreak :
    (lead v rest : Bytes)
    → AtBreak rest
    → bare_token lead v rest ≡ token (record { lead = lead; raw = v; value = v }) rest
unfolding bare_token
bare_token-AtBreak lead v [] h = refl
bare_token-AtBreak lead v (c ∷ rest) h = rw h

bare_stops : (rest : Bytes) → AtBreak rest → StopsAt is_bare rest
bare_stops [] h = tt
bare_stops (c ∷ rest) h = ground arith

-- An argument that is spelled right is the token at the head of the text.
abbrev HeadToken : Bytes → Bytes → Bytes → Bytes → Bytes → Type 0
HeadToken lead raw v rest [] = ⊥
HeadToken lead raw v rest (c ∷ cs) =
    (is_space c ≡ false)
    × (read_token lead c cs ≡ token (record { lead = lead; raw = raw; value = v }) rest)

quoted-HeadToken :
    (lead v rest : Bytes)
    → all (is_not b'"') v ≡ true
    → AtBreak rest
    → HeadToken lead (quoted v) v rest (quoted v ++ rest)
unfolding read_token
quoted-HeadToken lead v rest q b = (
  refl,
  rw (append_assoc v (b'"' ∷ []) rest, cut_byte-append b'"' v rest q)
      (quoted_token-AtBreak lead v rest b),
)

plain-HeadToken :
    (lead v rest : Bytes)
    → all is_bare v ≡ true
    → v ≢ []
    → AtBreak rest
    → HeadToken lead v v rest (v ++ rest)
unfolding read_token
plain-HeadToken lead [] rest q n b = absurd (n refl)
plain-HeadToken lead (c ∷ v) rest q n b =
    let stop = bare_stops rest b in
    let head : (is_space c ≡ false) × ((c == b'"') ≡ false) = unfold all in ground arith in
    (
      head.0,
      rw
          (
            head.1,
            take_while-append is_bare (c ∷ v) rest q stop,
            drop_while-append is_bare (c ∷ v) rest q stop,
          )
          (bare_token-AtBreak lead (c ∷ v) rest b),
    )

Spells-HeadToken :
    {raw v : Bytes} (lead rest : Bytes)
    → Spells raw v
    → AtBreak rest
    → HeadToken lead raw v rest (raw ++ rest)
Spells-HeadToken {raw} {v} lead rest (in_quotes r q) b =
    subst (λ x. HeadToken lead x v rest (x ++ rest)) (sym r) (quoted-HeadToken lead v rest q b)
Spells-HeadToken {raw} {v} lead rest (plain r q n) b =
    subst (λ x. HeadToken lead x v rest (x ++ rest)) (sym r) (plain-HeadToken lead v rest q n b)

round-HeadToken :
    (next : Bytes → Split) (lead raw v rest text : Bytes)
    → HeadToken lead raw v rest text
    → (StopsAt is_space text)
      × (round next lead text ≡ prepend (record { lead = lead; raw = raw; value = v }) (next rest))
unfolding round and_then
round-HeadToken next lead raw v rest [] h = absurd h
round-HeadToken next lead raw v rest (c ∷ cs) h = (h.0, rw h.1)

-- The loop takes one argument that is spelled right, and goes on behind it.
split_loop-Spells :
    (fuel : ℕ) (a : Argument) (rest : Bytes)
    → all is_space a.lead ≡ true
    → Spells a.raw a.value
    → AtBreak rest
    → split_loop (suc fuel) (a.lead ++ (a.raw ++ rest)) ≡ prepend a (split_loop fuel rest)
unfolding split_loop
split_loop-Spells fuel a rest l s b =
    let (stop, step) =
      round-HeadToken (split_loop fuel) a.lead a.raw a.value rest (a.raw ++ rest)
        (Spells-HeadToken a.lead rest s b) in
    rw
      (
        take_while-append is_space a.lead (a.raw ++ rest) l stop,
        drop_while-append is_space a.lead (a.raw ++ rest) l stop,
      )
      step

-- Arguments that are spelled right; each but the first stands behind a space.
pub data Spelled : List Argument → Type 0 where
  nil : Spelled []
  cons :
      {a : Argument} {xs : List Argument}
      → all is_space a.lead ≡ true
      → Spells a.raw a.value
      → AtBreak (render_arguments xs)
      → Spelled xs
      → Spelled (a ∷ xs)

Spells-pos : {raw v : Bytes} → Spells raw v → 0 < length raw
Spells-pos (in_quotes r q) = rw r (omega arith)
Spells-pos {v = []} (plain r q n) = absurd (n refl)
Spells-pos {v = c ∷ v} (plain r q n) = rw r (omega arith)

split_loop-Spelled :
    (fuel : ℕ) {xs : List Argument}
    → Spelled xs
    → length (render_arguments xs) < fuel
    → split_loop fuel (render_arguments xs) ≡ arguments xs []
unfolding render_arguments
split_loop-Spelled zero s h = absurd (omega arith)
split_loop-Spelled (suc fuel) nil h = unfold split_loop round take_while drop_while in refl
split_loop-Spelled (suc fuel) (cons {a} {xs} l s b t) h =
    split_loop-Spells fuel a (render_arguments xs) l s b
    ∙ rw
        (split_loop-Spelled fuel t (
          omega (
            arith,
            Spells-pos s,
            length-append {0} a.lead (a.raw ++ render_arguments xs),
            length-append {0} a.raw (render_arguments xs),
          )))
        (unfold prepend in refl)

-- The split of what was written gives the arguments that were written.
pub split_arguments-Spelled :
    {xs : List Argument} → Spelled xs → split_arguments (render_arguments xs) ≡ arguments xs []
unfolding split_arguments
split_arguments-Spelled {xs} s =
    split_loop-Spelled (suc (length (render_arguments xs))) s (omega arith)
