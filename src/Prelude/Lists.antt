-- ===== src/Prelude/Lists.antt =====
-- Lists measured and searched with native numbers and Boolean tests.
use Prim.Native.Nat.{ℕ, zero, suc}
use mathlib.Core.Path.{◌≡◌}
use mathlib.Core.Bool.{Bool, true, false, ◌||◌}
use mathlib.Core.List.{List, [], ◌∷◌}
use mathlib.Core.Option.{Option, none, some}
use native.Mathlib.Omega.{arith}
use study_mate.Prelude.Tests.{if◌then◌else◌}

module _ {ℓ} {A : Type ℓ} where
  abbrev pub length : List A → ℕ
  length [] = 0
  length (x ∷ xs) = suc (length xs)

  abbrev pub get_elem? : List A → ℕ → Option A
  get_elem? [] i = none
  get_elem? (x ∷ xs) zero = some x
  get_elem? (x ∷ xs) (suc i) = get_elem? xs i

  abbrev pub take : ℕ → List A → List A
  take zero xs = []
  take (suc n) [] = []
  take (suc n) (x ∷ xs) = x ∷ take n xs

  -- the first element that passes the test
  abbrev pub find : (A → Bool) → List A → Option A
  find p [] = none
  find p (x ∷ xs) = if p x then some x else find p xs

  -- some element passes the test
  abbrev pub any : (A → Bool) → List A → Bool
  any p [] = false
  any p (x ∷ xs) = p x || any p xs

  -- the elements that pass the test, in order
  abbrev pub select : (A → Bool) → List A → List A
  select p [] = []
  select p (x ∷ xs) = let rest = select p xs in if p x then x ∷ rest else rest

  -- `f` applied to the elements that pass the test, the others unchanged
  abbrev pub update : (A → Bool) → (A → A) → List A → List A
  update p f [] = []
  update p f (x ∷ xs) = (if p x then f x else x) ∷ update p f xs

  abbrev pub All {κ} : (A → Type κ) → List A → Type κ
  All P [] = Unit
  All P (x ∷ xs) = P x × All P xs

-- what a search finds after an update that does not change what is searched for
pub find-update {ℓ} :
    {A : Type ℓ} (q r : A → Bool) (f : A → A) (xs : List A) (x : A)
    → ((y : A) → q (f y) ≡ q y)
    → find q xs ≡ some x
    → find q (update r f xs) ≡ some (if r x then f x else x)
find-update q r f [] x keep h = ground arith
find-update q r f (y ∷ ys) x keep h = ground (arith, keep y, find-update q r f ys x keep)

-- what a search finds passes its test
pub find-holds {ℓ} :
    {A : Type ℓ} (p : A → Bool) (xs : List A) (x : A) → find p xs ≡ some x → p x ≡ true
find-holds p [] x h = ground arith
find-holds p (y ∷ ys) x h = ground (arith, find-holds p ys x)

-- what a search finds is there
pub any-find {ℓ} :
    {A : Type ℓ} (p : A → Bool) (xs : List A) (x : A) → find p xs ≡ some x → any p xs ≡ true
any-find p [] x h = ground arith
any-find p (y ∷ ys) x h = ground (arith, any-find p ys x)

-- an update that does not change what is tested
pub any-update {ℓ} :
    {A : Type ℓ} (q r : A → Bool) (f : A → A) (xs : List A)
    → ((y : A) → q (f y) ≡ q y)
    → any q (update r f xs) ≡ any q xs
any-update q r f [] keep = ground arith
any-update q r f (y ∷ ys) keep = ground (arith, keep y, any-update q r f ys keep)

-- what is not there is not found
pub find-any {ℓ} : {A : Type ℓ} (p : A → Bool) (xs : List A) → any p xs ≡ false → find p xs ≡ none
find-any p [] h = ground arith
find-any p (y ∷ ys) h = ground (arith, find-any p ys)
