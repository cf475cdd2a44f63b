-- ===== src/Prelude/Sorting.antt =====
-- ORDER BY a column, and what it keeps.
use Prim.Native.Nat.{ℕ, zero, suc}
use mathlib.Core.Path.{◌≡◌, refl, ◌∙◌}
use mathlib.Core.Bool.{Bool, false}
use mathlib.Core.List.{List, [], ◌∷◌}
use native.Mathlib.Omega.{arith}
use study_mate.Prelude.Tests.{leb, if◌then◌else◌}
use study_mate.Prelude.Lists.{any, take}

unfoldable pub insert_by {ℓ} : {A : Type ℓ} → (A → ℕ) → A → List A → List A
insert_by key a [] = a ∷ []
insert_by key a (b ∷ rest) =
    let later = insert_by key a rest in if leb (key a) (key b) then a ∷ b ∷ rest else b ∷ later

unfoldable pub sort_by {ℓ} : {A : Type ℓ} → (A → ℕ) → List A → List A
unfolding insert_by
sort_by key [] = []
sort_by key (a ∷ rest) = insert_by key a (sort_by key rest)

module _ {ℓ} {A : Type ℓ} where
  pub any-insert_by :
      (p : A → Bool) (key : A → ℕ) (a : A) (xs : List A)
      → any p (insert_by key a xs) ≡ any p (a ∷ xs)
  unfolding insert_by
  any-insert_by p key a [] = refl
  any-insert_by p key a (b ∷ xs) = ground (arith, any-insert_by p key a xs)

  pub any-sort_by : (p : A → Bool) (key : A → ℕ) (xs : List A) → any p (sort_by key xs) ≡ any p xs
  unfolding sort_by
  any-sort_by p key [] = refl
  any-sort_by p key (a ∷ xs) =
      any-insert_by p key a (sort_by key xs) ∙ ground (arith, any-sort_by p key xs)

  -- a list that is cut holds no more than it held
  pub any-take : (p : A → Bool) (n : ℕ) (xs : List A) → any p xs ≡ false → any p (take n xs) ≡ false
  any-take p zero xs h = refl
  any-take p (suc n) [] h = refl
  any-take p (suc n) (x ∷ xs) h = ground (arith, h, any-take p n xs)
