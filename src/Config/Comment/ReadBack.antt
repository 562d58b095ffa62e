-- ===== src/Config/Comment/ReadBack.antt =====
-- internal/config/block.go: a comment that is written and read again.
use ssh_ui.Base.{
  ◌≡◌, ◌⊎◌, inl, inr, refl, ap, true, false, List, [], ◌∷◌, ◌++◌, map, arith, Bytes, codes, all,
  All, StopsAt, ◌==◌, if◌then◌else◌, drop_while-append, trim_prefix, trim_suffix,
  trim_suffix-append, trim_right, split_byte, join, join-split_byte, Bool-cases, has_prefix,
}
use mathlib.Core.List.{append_assoc}
use ssh_ui.Config.Token.{is_space}
use ssh_ui.Config.Line.{Line}
use ssh_ui.Config.Comment.{strip_marker, text_of, unix_breaks, mark, comment_line, render_comment}

-- a line break of the file
abbrev pub IsBreak : Bytes → Type 0
IsBreak ending = (ending ≡ codes "\n") ⊎ (ending ≡ 13 ∷ 10 ∷ [])

-- What is read back of a part: as it is, but for a marker that the user wrote.
abbrev unmark : Bytes → Bytes
unmark [] = []
unmark (c ∷ cs) = if c == b'#' then trim_prefix b' ' cs else c ∷ cs

mark-stops : (t rest : Bytes) → StopsAt is_space (mark t ++ rest)
unfolding mark is_space
mark-stops [] rest = refl
mark-stops (c ∷ cs) rest = ground arith

trim_suffix-mark : (t : Bytes) → trim_suffix 13 t ≡ t → trim_suffix 13 (mark t) ≡ mark t
unfolding mark trim_suffix
trim_suffix-mark [] h = refl
trim_suffix-mark (c ∷ cs) h = elim (Bool-cases (c == b'#')) [
  | inl e ↦ rw e h
  | inr e ↦ rw e (ap (λ (x : Bytes). b'#' ∷ b' ' ∷ x) h)
]

trim-ending :
    (t ending : Bytes)
    → IsBreak ending
    → trim_suffix 13 t ≡ t
    → trim_suffix 13 (trim_suffix 10 (t ++ ending)) ≡ t
trim-ending t ending (inl e) h = rw (e, trim_suffix-append 10 t) h
trim-ending t ending (inr e) h = rw (
  e,
  ← append_assoc t (13 ∷ []) (10 ∷ []),
  trim_suffix-append 10 (t ++ (13 ∷ [])),
  trim_suffix-append 13 t,
)

trim-mark : (t : Bytes) → trim_prefix b' ' (trim_prefix b'#' (mark t)) ≡ unmark t
unfolding trim_prefix mark
trim-mark [] = refl
trim-mark (c ∷ cs) = elim (Bool-cases (c == b'#')) [ inl e ↦ rw (e, e) | inr e ↦ rw e ]

strip_marker-mark :
    (indent t ending : Bytes)
    → all is_space indent ≡ true
    → IsBreak ending
    → trim_suffix 13 t ≡ t
    → strip_marker (indent ++ (mark t ++ ending)) ≡ unmark t
unfolding strip_marker
strip_marker-mark indent t ending s b h =
    rw
      (
        drop_while-append is_space indent (mark t ++ ending) s (mark-stops t ending),
        trim-ending (mark t) ending b (trim_suffix-mark t h),
      )
      (trim-mark t)

-- a part that is read back as it is
abbrev pub IsPlainPart : Bytes → Type 0
IsPlainPart part =
    (trim_right is_space part ≡ part)
    × (trim_suffix 13 part ≡ part)
    × (has_prefix part (codes "#") ≡ false)

unmark-plain : (t : Bytes) → has_prefix t (codes "#") ≡ false → unmark t ≡ t
unfolding has_prefix
unmark-plain [] h = refl
unmark-plain (c ∷ cs) h = ground arith

texts-plain :
    (indent ending : Bytes) (parts : List Bytes)
    → all is_space indent ≡ true
    → IsBreak ending
    → All IsPlainPart parts
    → map (λ (l : Line). strip_marker l.text) (map (comment_line indent ending) parts) ≡ parts
unfolding comment_line
texts-plain indent ending [] s b h = refl
texts-plain indent ending (part ∷ parts) s b ((r, c, p), hs) = rw (
  r,
  strip_marker-mark indent part ending s b c,
  unmark-plain part p,
  texts-plain indent ending parts s b hs,
)

-- A comment whose parts have no marker of their own, no trailing space and no carriage return
-- is read back as it was given.
pub text_of-render_comment :
    (text indent ending : Bytes)
    → all is_space indent ≡ true
    → IsBreak ending
    → unix_breaks text ≡ text
    → All IsPlainPart (split_byte b'\n' text)
    → text_of (render_comment text indent ending) ≡ text
unfolding text_of render_comment
text_of-render_comment [] indent ending s b u h = unfold join in refl
text_of-render_comment (c ∷ cs) indent ending s b u h =
    rw (u, texts-plain indent ending (split_byte b'\n' (c ∷ cs)) s b h)
      (join-split_byte b'\n' (c ∷ cs))

-- A part that begins with a marker loses it when it is read back, and with it one space behind
-- it: saving what was read changes the line.
pub text_of-comment_line :
    (part indent ending : Bytes)
    → all is_space indent ≡ true
    → IsBreak ending
    → trim_right is_space (b'#' ∷ part) ≡ b'#' ∷ part
    → trim_suffix 13 (b'#' ∷ part) ≡ b'#' ∷ part
    → text_of (comment_line indent ending (b'#' ∷ part) ∷ []) ≡ trim_prefix b' ' part
unfolding text_of comment_line join
text_of-comment_line part indent ending s b r c =
    rw (r, strip_marker-mark indent (b'#' ∷ part) ending s b c)
