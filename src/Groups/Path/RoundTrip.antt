-- ===== src/Groups/Path/RoundTrip.antt =====
-- internal/application/grouppath.go: the directory of a group, and the group of a path in it.
use ssh_ui.Base.{
  ℕ, ◌≡◌, refl, ap, subst, ◌∙◌, Bool, true, false, some, List, [], ◌∷◌, ◌++◌, arith, Bytes, codes,
  ◌==◌, str_eq_refl, is_not, if◌then◌else◌, all, split_byte, join, join-split_byte, NonEmpty,
  split_byte-NonEmpty, Bool-cases, inl, inr,
}
use ssh_ui.Groups.Path.{
  connections_directory, is_segment_byte, valid_segment, validate_group_name, group_directory,
  slashes, trim_dot, all_but_last, valid_name, group_of_segments, group_of, group_of_path,
}

abbrev onto : ℕ → List Bytes → List Bytes
onto c [] = (c ∷ []) ∷ []
onto c (part ∷ parts) = (c ∷ part) ∷ parts

onto-append : (c : ℕ) (xs ys : List Bytes) → NonEmpty xs → onto c (xs ++ ys) ≡ onto c xs ++ ys
onto-append c [] ys h = absurd h
onto-append c (x ∷ xs) ys h = refl

split_byte-append :
    (b : ℕ) (s t : Bytes) → split_byte b (s ++ (b ∷ t)) ≡ split_byte b s ++ split_byte b t
unfolding split_byte
split_byte-append b [] t = ground arith
split_byte-append b (c ∷ s) t = elim (Bool-cases (c == b)) [
  | inl e ↦ rw (e, split_byte-append b s t) refl
  | inr e ↦
      rw (e, split_byte-append b s t)
        (onto-append c (split_byte b s) (split_byte b t) (split_byte-NonEmpty b s))
]

split_byte-whole : (b : ℕ) (s : Bytes) → all (is_not b) s ≡ true → split_byte b s ≡ s ∷ []
unfolding split_byte all
split_byte-whole b [] h = refl
split_byte-whole b (c ∷ s) h =
    let (e, r) : ((c == b) ≡ false) × (all (is_not b) s ≡ true) = (ground arith, ground arith) in
    rw (e, split_byte-whole b s r) refl

slashes-kept : (s : Bytes) → all (is_not b'\\') s ≡ true → slashes s ≡ s
unfolding slashes all
slashes-kept [] h = refl
slashes-kept (c ∷ s) h =
    let (e, r) : ((c == b'\\') ≡ false) × (all (is_not b'\\') s ≡ true) =
      (ground arith, ground arith) in
    rw (e, slashes-kept s r) refl

all-append : (p : ℕ → Bool) (s t : Bytes) → all p s ≡ true → all p t ≡ true → all p (s ++ t) ≡ true
unfolding all
all-append p [] t h k = k
all-append p (c ∷ s) t h k = ground (arith, all-append p s t)

all-onto :
    (c : ℕ) (parts : List Bytes)
    → NonEmpty parts
    → all (all is_segment_byte) (onto c parts) ≡ true
    → (is_segment_byte c ≡ true) × (all (all is_segment_byte) parts ≡ true)
unfolding all
all-onto c [] n h = absurd n
all-onto c (p ∷ ps) n h = ground arith

segment_byte-is_not : (c : ℕ) → is_segment_byte c ≡ true → is_not b'\\' c ≡ true
unfolding is_segment_byte
segment_byte-is_not c h = ground arith

-- the bytes of a name whose segments are valid
segments-no_backslash :
    (s : Bytes) → all (all is_segment_byte) (split_byte b'/' s) ≡ true → all (is_not b'\\') s ≡ true
unfolding split_byte all
segments-no_backslash [] h = refl
segments-no_backslash (c ∷ s) h = elim (Bool-cases (c == b'/')) [
  | inl e ↦
      let r = segments-no_backslash s (
        subst
          (λ b.
            all (all is_segment_byte)
              (if b then [] ∷ split_byte b'/' s else onto c (split_byte b'/' s))
            ≡ true)
          e h) in
      ground arith
  | inr e ↦
      let (k, r) = all-onto c (split_byte b'/' s) (split_byte-NonEmpty b'/' s) (
        subst
          (λ b.
            all (all is_segment_byte)
              (if b then [] ∷ split_byte b'/' s else onto c (split_byte b'/' s))
            ≡ true)
          e h) in
      let t = segments-no_backslash s r in rw (segment_byte-is_not c k, t) refl
]

valid_segment-bytes : (s : Bytes) → valid_segment s ≡ true → all is_segment_byte s ≡ true
unfolding valid_segment
valid_segment-bytes s h = ground arith

segments-bytes :
    (xs : List Bytes) → all valid_segment xs ≡ true → all (all is_segment_byte) xs ≡ true
unfolding all
segments-bytes [] h = refl
segments-bytes (x ∷ xs) h = ground (arith, valid_segment-bytes x, segments-bytes xs)

no_backslash :
    (s : Bytes) → all valid_segment (split_byte b'/' s) ≡ true → all (is_not b'\\') s ≡ true
no_backslash s h = segments-no_backslash s (segments-bytes (split_byte b'/' s) h)

all_but_last-append : (xs : List Bytes) (x : Bytes) → all_but_last (xs ++ (x ∷ [])) ≡ xs
unfolding all_but_last
all_but_last-append [] x = refl
all_but_last-append (y ∷ []) x = refl
all_but_last-append (y ∷ z ∷ xs) x = ap (◌∷◌ y) (all_but_last-append (z ∷ xs) x)

group_of_segments-append :
    (root x : Bytes) (xs : List Bytes)
    → NonEmpty xs
    → group_of_segments root (root ∷ (xs ++ (x ∷ []))) ≡ valid_name (join (codes "/") xs)
unfolding group_of_segments
group_of_segments-append root x [] h = absurd h
group_of_segments-append root x (y ∷ []) h =
    rw (str_eq_refl) (ap (λ s. valid_name (join (codes "/") s)) (all_but_last-append (y ∷ []) x))
group_of_segments-append root x (y ∷ z ∷ xs) h =
    rw (str_eq_refl)
      (ap (λ s. valid_name (join (codes "/") s)) (all_but_last-append (y ∷ z ∷ xs) x))

-- A file in the directory of a group whose name is valid is in that group, when the name of the
-- file has no slash and no backslash.
pub group_of_path-group_directory :
    (name file : Bytes)
    → validate_group_name name ≡ true
    → all (is_not b'/') file ≡ true
    → all (is_not b'\\') file ≡ true
    → group_of_path (group_directory name ++ (codes "/" ++ file)) ≡ some name
unfolding group_of_path group_of group_directory
group_of_path-group_directory name file v s b =
    let path = name ++ (b'/' ∷ file) in
    let valid : all valid_segment (split_byte b'/' name) ≡ true = segments v in
    let kept : slashes path ≡ path =
      slashes-kept path
        (all-append (is_not b'\\') name (b'/' ∷ file) (no_backslash name valid) (plain_file b)) in
    let parts : split_byte b'/' path ≡ split_byte b'/' name ++ (file ∷ []) =
      split_byte-append b'/' name file
      ∙ ap (λ t. split_byte b'/' name ++ t) (split_byte-whole b'/' file s) in
    prefixed path kept
    ∙ ap (λ t. group_of_segments connections_directory (connections_directory ∷ t)) parts
    ∙ group_of_segments-append connections_directory file (split_byte b'/' name)
        (split_byte-NonEmpty b'/' name)
    ∙ ap valid_name (join-split_byte b'/' name)
    ∙ named v
  where
    segments : validate_group_name name ≡ true → all valid_segment (split_byte b'/' name) ≡ true
    segments h = unfold validate_group_name in ground arith

    plain_file : all (is_not b'\\') file ≡ true → all (is_not b'\\') (b'/' ∷ file) ≡ true
    plain_file h = unfold all in rw h refl

    prefixed :
        (t : Bytes)
        → slashes t ≡ t
        → group_of_segments connections_directory
            (split_byte b'/' (trim_dot (slashes (connections_directory ++ (codes "/" ++ t)))))
          ≡ group_of_segments connections_directory (connections_directory ∷ split_byte b'/' t)
    prefixed t e = unfold slashes trim_dot split_byte in rw e refl

    named : validate_group_name name ≡ true → valid_name name ≡ some name
    named h = unfold valid_name in rw h refl
