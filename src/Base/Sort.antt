-- ===== src/Base/Sort.antt =====
-- `sort.Strings` and `slices.Sort` on texts: by insertion, in the order of the bytes.
use mathlib.Core.Path.{◌≡◌, refl}
use mathlib.Core.Logic.{◌≢◌}
use mathlib.Core.Bool.{Bool, true, false, ◌&&◌, ◌||◌}
use mathlib.Core.List.{List, [], ◌∷◌}
use ssh_ui.Base.Tests.{if◌then◌else◌, ltb, ◌==◌}
use ssh_ui.Base.Text.{Bytes}

unfoldable pub str_leb : Bytes → Bytes → Bool
str_leb [] b = true
str_leb (x ∷ a) [] = false
str_leb (x ∷ a) (y ∷ b) = ltb x y || x == y && str_leb a b

unfoldable pub insert_by {ℓ} : {A : Type ℓ} → (A → Bytes) → A → List A → List A
insert_by key x [] = x ∷ []
insert_by key x (y ∷ ys) = if str_leb (key x) (key y) then x ∷ y ∷ ys else y ∷ insert_by key x ys

-- by a key of the elements
unfoldable pub sort_by {ℓ} : {A : Type ℓ} → (A → Bytes) → List A → List A
unfolding insert_by str_leb
sort_by key [] = []
sort_by key (x ∷ xs) = insert_by key x (sort_by key xs)

insert_by-ne {ℓ} : {A : Type ℓ} (key : A → Bytes) (x : A) (ys : List A) → insert_by key x ys ≢ []
unfolding insert_by
insert_by-ne key x [] = λ e. cc
insert_by-ne key x (y ∷ ys) = go (str_leb (key x) (key y))
  where
    go : (b : Bool) → (if b then x ∷ y ∷ ys else y ∷ insert_by key x ys) ≢ []
    go true = λ e. cc
    go false = λ e. cc

pub sort_by-eq-nil {ℓ} :
    {A : Type ℓ} (key : A → Bytes) (xs : List A) → sort_by key xs ≡ [] → xs ≡ []
unfolding sort_by
sort_by-eq-nil key [] h = refl
sort_by-eq-nil key (x ∷ xs) h = absurd (insert_by-ne key x (sort_by key xs) h)
