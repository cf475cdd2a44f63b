-- ===== src/Exec.antt =====
-- How a request runs. A handler reads and changes a store through calls that may fail: a query, an
-- update, a call of another service. Which calls fail is decided by the world, by a list with one
-- entry for each call to come (`true`: that call fails and changes nothing; a call past its end
-- succeeds). A theorem for every world is thus one for every pattern of failures.
pub mod Calm
pub mod Doing
pub mod Keeps
pub mod Outcomes
pub mod Reading
use study_mate.Prelude.{◌≡◌, refl, ◌⊎◌, inl, inr, Bool, true, false, List, [], ◌∷◌, arith}

pub data Result {ℓ} (E A : Type ℓ) : Type ℓ where
  ok : A → Result E A
  err : E → Result E A

-- how a request ended
abbrev pub IsOk {ℓ} : {E A : Type ℓ} → Result E A → Type 0
IsOk (ok a) = Unit
IsOk (err e) = ⊥

abbrev pub IsError {ℓ} : {E A : Type ℓ} → Result E A → Type 0
IsError (ok a) = ⊥
IsError (err e) = Unit

pub Result-cases {ℓ} :
    {E A : Type ℓ} (r : Result E A) → ((a : A) × (r ≡ ok a)) ⊎ ((e : E) × (r ≡ err e))
Result-cases (ok a) = inl (a, refl)
Result-cases (err e) = inr (e, refl)

-- a result has one value
pub one_value {ℓ} : {E A : Type ℓ} (r : Result E A) (a b : A) → r ≡ ok a → r ≡ ok b → a ≡ b
one_value (ok c) a b h k = ground (arith, h, k)
one_value (err e) a b h k = ground (arith, h, k)

-- no request ends both ways
pub IsOk-IsError {ℓ} : {E A B : Type ℓ} (r : Result E A) → IsOk r → IsError r → B
IsOk-IsError (ok a) h k = absurd k
IsOk-IsError (err e) h k = absurd h

pub record World {ℓ} (S : Type ℓ) : Type ℓ where
  pub store : S
  pub faults : List Bool

abbrev pub Act {ℓ} : Type ℓ → Type ℓ → Type ℓ → Type ℓ
Act S E A = World S → Result E A × World S

module _ {ℓ} {S E A : Type ℓ} where
  abbrev pub pure : A → Act S E A
  pure a w = (ok a, w)

  abbrev pub raise : E → Act S E A
  raise e w = (err e, w)

  -- a pure step that may fail
  abbrev pub lift : Result E A → Act S E A
  lift r w = (r, w)

  call_at : E → (S → Result E A × S) → S → List Bool → Result E A × World S
  call_at e f s [] = let (r, s') = f s in (r, record { store = s'; faults = [] })
  call_at e f s (true ∷ rest) = (err e, record { store = s; faults = rest })
  call_at e f s (false ∷ rest) = let (r, s') = f s in (r, record { store = s'; faults = rest })

  -- one call of the database or of a service: `e` is the error of a call that fails
  unfoldable pub call : E → (S → Result E A × S) → Act S E A
  unfolding call_at
  call e f w = call_at e f w.store w.faults

  -- a step on the program's own memory, which cannot fail
  abbrev pub step : (S → A × S) → Act S E A
  step f w = let (a, s) = f w.store in (ok a, record w { store = s })

  -- `x, err := m`, where the code looks at the error itself or drops it
  abbrev pub caught : Result E A × World S → Result E (Result E A) × World S
  caught (r, w) = (ok r, w)

  abbrev pub attempt : Act S E A → Act S E (Result E A)
  attempt m w = caught (m w)

  -- what a transaction leaves behind: all of its effects, or the store as it was at its start
  abbrev pub settle : S → Result E A × World S → Result E A × World S
  settle s (ok a, w) = (ok a, w)
  settle s (err e, w) = (err e, record w { store = s })

  -- Begin ... Commit, with the deferred Rollback
  abbrev pub transaction : Act S E A → Act S E A
  transaction m w = settle w.store (m w)

module _ {ℓ} {S E A B : Type ℓ} where
  abbrev pub and_then : (A → Act S E B) → Result E A × World S → Result E B × World S
  and_then f (ok a, w) = f a w
  and_then f (err e, w) = (err e, w)

  infixl 5 ◌>>=◌
  abbrev pub ◌>>=◌ : Act S E A → (A → Act S E B) → Act S E B
  ◌>>=◌ m f w = and_then f (m w)

module _ {ℓ} {S E B : Type ℓ} where
  infixl 5 ◌>>◌
  abbrev pub ◌>>◌ : Act S E (Unit {ℓ}) → Act S E B → Act S E B
  m >> k = m >>= λ _. k

module _ {ℓ} {S E : Type ℓ} where
  -- `if !b { return e }`
  abbrev pub guard : Bool → E → Act S E (Unit {ℓ})
  guard true e = pure tt
  guard false e = raise e
