-- ===== src/Base/Maps.antt =====
-- Go maps with string keys, as association lists. The order of the entries stands for the order
-- in which a `range` visits them, which Go leaves open.
use Prim.Native.Nat.{◌+◌, ◌≤◌}
use mathlib.Core.Path.{◌≡◌, refl, ap, subst, ◌∙◌}
use mathlib.Core.Logic.{inl, inr}
use mathlib.Core.Bool.{Bool, true, false}
use mathlib.Core.Option.{Option, none, some}
use mathlib.Core.List.{List, [], ◌∷◌}
use native.Mathlib.Omega.{arith}
use ssh_ui.Base.Tests.{if◌then◌else◌, Bool-cases}
use ssh_ui.Base.Lists.{length}
use ssh_ui.Base.Text.{Bytes, str_eq, str_eq_iff}

abbrev pub Dict {ℓ} : Type ℓ → Type ℓ
Dict V = List (Bytes × V)

module _ {ℓ} {V : Type ℓ} where
  unfoldable pub lookup : Bytes → Dict V → Option V
  lookup k [] = none
  lookup k ((j, v) ∷ m) = if str_eq j k then some v else lookup k m

  -- m[k] = v
  unfoldable pub insert : Bytes → V → Dict V → Dict V
  insert k v [] = (k, v) ∷ []
  insert k v ((j, w) ∷ m) = if str_eq j k then (k, v) ∷ m else (j, w) ∷ insert k v m

  -- delete(m, k)
  unfoldable pub remove : Bytes → Dict V → Dict V
  remove k [] = []
  remove k ((j, w) ∷ m) = let rest = remove k m in if str_eq j k then rest else (j, w) ∷ rest

  -- the deletion, in a `range`, of the entries that fail a test
  unfoldable pub keep : (V → Bool) → Dict V → Dict V
  keep p [] = []
  keep p ((j, w) ∷ m) = let rest = keep p m in if p w then (j, w) ∷ rest else rest

  pub lookup-insert :
      (k j : Bytes) (v : V) (m : Dict V)
      → lookup j (insert k v m) ≡ (if str_eq k j then some v else lookup j m)
  unfolding lookup insert
  lookup-insert k j v [] = refl
  lookup-insert k j v ((i, w) ∷ m) =
      ground (arith, str_eq_iff k j, str_eq_iff i k, str_eq_iff i j, lookup-insert k j v m)

  pub lookup-remove :
      (k j : Bytes) (m : Dict V) → lookup j (remove k m) ≡ (if str_eq k j then none else lookup j m)
  unfolding lookup remove
  lookup-remove k j [] = ground arith
  lookup-remove k j ((i, w) ∷ m) =
      ground (arith, str_eq_iff k j, str_eq_iff i k, str_eq_iff i j, lookup-remove k j m)

  -- Each key stands once: an entry under a key hides no other.
  abbrev pub Absent : Bytes → Dict V → Type ℓ
  Absent k [] = Unit
  Absent k ((j, w) ∷ m) = (str_eq j k ≡ false) × Absent k m

  abbrev pub IsMap : Dict V → Type ℓ
  IsMap [] = Unit
  IsMap ((j, w) ∷ m) = Absent j m × IsMap m

  pub lookup-Absent : (k : Bytes) (m : Dict V) → Absent k m → lookup k m ≡ none
  unfolding lookup
  lookup-Absent k [] h = refl
  lookup-Absent k ((j, w) ∷ m) h = rw h.0 (lookup-Absent k m h.1)

  keep-Absent : (p : V → Bool) (k : Bytes) (m : Dict V) → Absent k m → Absent k (keep p m)
  unfolding keep
  keep-Absent p k [] h = tt
  keep-Absent p k ((j, w) ∷ m) h =
      elim (p w) as (λ b. Absent k (if b then (j, w) ∷ keep p m else keep p m)) [
        | true ↦ (h.0, keep-Absent p k m h.1)
        | false ↦ keep-Absent p k m h.1
      ]

  pub keep-IsMap : (p : V → Bool) (m : Dict V) → IsMap m → IsMap (keep p m)
  unfolding keep
  keep-IsMap p [] h = tt
  keep-IsMap p ((j, w) ∷ m) h =
      elim (p w) as (λ b. IsMap (if b then (j, w) ∷ keep p m else keep p m)) [
        | true ↦ (keep-Absent p j m h.0, keep-IsMap p m h.1)
        | false ↦ keep-IsMap p m h.1
      ]

  abbrev pub kept : (V → Bool) → Option V → Option V
  kept p none = none
  kept p (some v) = if p v then some v else none

  pub lookup-keep :
      (p : V → Bool) (k : Bytes) (m : Dict V) → IsMap m → lookup k (keep p m) ≡ kept p (lookup k m)
  unfolding lookup keep
  lookup-keep p k [] h = refl
  lookup-keep p k ((j, w) ∷ m) h = elim (Bool-cases (str_eq j k)) [
    | inl e ↦
        let gone : lookup k (keep p m) ≡ none =
          lookup-keep p k m h.1
          ∙ ap (kept p) (lookup-Absent k m (subst (λ x. Absent x m) ((str_eq_iff j k).0 e) h.0)) in
        rw e
          (elim (p w)
            as (λ b.
              lookup k (if b then (j, w) ∷ keep p m else keep p m) ≡ (if b then some w else none)) [
                | true ↦ rw e refl
                | false ↦ gone
              ])
    | inr e ↦
        rw e
          (elim (p w)
            as (λ b. lookup k (if b then (j, w) ∷ keep p m else keep p m) ≡ kept p (lookup k m)) [
              | true ↦ rw e (lookup-keep p k m h.1)
              | false ↦ lookup-keep p k m h.1
            ])
  ]

  remove-Absent : (i k : Bytes) (m : Dict V) → Absent k m → Absent k (remove i m)
  unfolding remove
  remove-Absent i k [] h = tt
  remove-Absent i k ((j, w) ∷ m) h =
      elim (str_eq j i) as (λ b. Absent k (if b then remove i m else (j, w) ∷ remove i m)) [
        | true ↦ remove-Absent i k m h.1
        | false ↦ (h.0, remove-Absent i k m h.1)
      ]

  pub remove-IsMap : (i : Bytes) (m : Dict V) → IsMap m → IsMap (remove i m)
  unfolding remove
  remove-IsMap i [] h = tt
  remove-IsMap i ((j, w) ∷ m) h =
      elim (str_eq j i) as (λ b. IsMap (if b then remove i m else (j, w) ∷ remove i m)) [
        | true ↦ remove-IsMap i m h.1
        | false ↦ (remove-Absent i j m h.0, remove-IsMap i m h.1)
      ]

  insert-Absent :
      (i k : Bytes) (v : V) (m : Dict V) → str_eq i k ≡ false → Absent k m → Absent k (insert i v m)
  unfolding insert
  insert-Absent i k v [] e h = (e, tt)
  insert-Absent i k v ((j, w) ∷ m) e h =
      elim (str_eq j i) as (λ b. Absent k (if b then (i, v) ∷ m else (j, w) ∷ insert i v m)) [
        | true ↦ (e, h.1)
        | false ↦ (h.0, insert-Absent i k v m e h.1)
      ]

  pub insert-IsMap : (i : Bytes) (v : V) (m : Dict V) → IsMap m → IsMap (insert i v m)
  unfolding insert
  insert-IsMap i v [] h = (tt, tt)
  insert-IsMap i v ((j, w) ∷ m) h = elim (Bool-cases (str_eq j i)) [
    | inl e ↦ rw e (subst (λ x. Absent x m) ((str_eq_iff j i).0 e) h.0, h.1)
    | inr e ↦ rw e (
      insert-Absent i j v m (ground (arith, str_eq_iff i j, str_eq_iff j i)) h.0,
      insert-IsMap i v m h.1,
    )
  ]

  pub length-insert : (i : Bytes) (v : V) (m : Dict V) → length (insert i v m) ≤ length m + 1
  unfolding insert
  length-insert i v [] = omega arith
  length-insert i v ((j, w) ∷ m) = ground (arith, length-insert i v m)

  pub length-remove : (i : Bytes) (m : Dict V) → length (remove i m) ≤ length m
  unfolding remove
  length-remove i [] = omega arith
  length-remove i ((j, w) ∷ m) = ground (arith, length-remove i m)

  pub length-keep : (p : V → Bool) (m : Dict V) → length (keep p m) ≤ length m
  unfolding keep
  length-keep p [] = omega arith
  length-keep p ((j, w) ∷ m) = ground (arith, length-keep p m)
