-- ===== src/Glob.antt =====
-- internal/effective/provenance.go `MatchPattern` and internal/knownhosts/file.go
-- `matchHostPattern`: the same loop over a pattern with `*` and `?`. An index into a text is the
-- rest of the text from there.
pub mod Meaning
pub mod Decides
use ssh_ui.Base.{
  ℕ, zero, suc, ◌+◌, ◌*◌, Bool, true, false, ◌||◌, ◌&&◌, Option, none, some, List, [], ◌∷◌, Bytes,
  ◌==◌, if◌then◌else◌, length, to_lower,
}

-- What the loop returns; `unfinished` is the model's own: the fuel ran out.
pub data Answer : Type 0 where
  answer : Bool → Answer
  unfinished : Answer

-- `starIndex + 1` and `resumeIndex`, once a star was passed
abbrev pub Back : Type 0
Back = Option (Bytes × Bytes)

-- the loop behind the text: the rest of the pattern is stars
unfoldable pub only_stars : Bytes → Bool
only_stars [] = true
only_stars (d ∷ p) = d == b'*' && only_stars p

-- `starIndex >= 0`, and the default
unfoldable pub retry : Back → (Bytes → Bytes → Back → Answer) → Answer
retry none next = answer false
retry (some (bp, [])) next = answer false
retry (some (bp, c ∷ bs)) next = next bp bs (some (bp, bs))

unfoldable pub match_loop : ℕ → Bytes → Bytes → Back → Answer
unfolding retry only_stars
match_loop zero p s back = unfinished
match_loop (suc fuel) p [] back = answer (only_stars p)
match_loop (suc fuel) [] (c ∷ s) back = retry back (match_loop fuel)
match_loop (suc fuel) (d ∷ p) (c ∷ s) back = elim (d == b'?' || d == c) [
  | true ↦ match_loop fuel p s back
  | false ↦ elim (d == b'*') [
    | true ↦ match_loop fuel p (c ∷ s) (some (p, c ∷ s))
    | false ↦ retry back (match_loop fuel)
  ]
]

-- a star is passed again at most once for each byte of the text
unfoldable pub match_pattern : Bytes → Bytes → Answer
unfolding match_loop
match_pattern pattern value =
    match_loop ((length value + 1) * (length pattern + 1)) pattern value none

-- on ASCII texts
unfoldable pub match_host_pattern : Bytes → Bytes → Answer
unfolding match_pattern
match_host_pattern pattern host = match_pattern (to_lower pattern) (to_lower host)
