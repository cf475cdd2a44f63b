-- ===== src/Exec/Outcomes.antt =====
-- How calls and transactions end.
use study_mate.Prelude.{[], ◌∷◌, true, false, List, Bool, ◌≡◌, refl, ◌⊎◌, inl, inr}
use study_mate.Exec.{Result, ok, err, IsError, World, Act, call, settle, transaction}

-- with no failing call ahead, a call is the operation itself
pub call-nil {ℓ} :
    {S E A : Type ℓ} (e : E) (f : S → Result E A × S) (s : S)
    → call e f (record { store = s; faults = [] })
      ≡ ((f s).0, record { store = (f s).1; faults = [] })
unfolding call
call-nil e f s = refl

-- a transaction that ends in an error leaves the store as it found it
settle-IsError {ℓ} :
    {S E A : Type ℓ} (s : S) (r : Result E A) (w : World S)
    → IsError (settle s (r, w)).0
    → (settle s (r, w)).1.store ≡ s
settle-IsError s (ok a) w h = absurd h
settle-IsError s (err e) w h = refl

pub transaction-IsError {ℓ} :
    {S E A : Type ℓ} (m : Act S E A) (w : World S)
    → IsError (transaction m w).0
    → (transaction m w).1.store ≡ w.store
transaction-IsError m w = settle-IsError w.store (m w).0 (m w).1

-- `r` is what a query of `v` may come back with in the world `w`
pub record Reads {ℓ} {S E A : Type ℓ} (e : E) (v : Result E A) (w : World S)
    (r : Result E A × World S) : Type ℓ where
  pub store : r.1.store ≡ w.store
  pub answer : (r.0 ≡ v) ⊎ (r.0 ≡ err e)

Reads-at {ℓ} :
    {S E A : Type ℓ} (e : E) (f : S → Result E A) (s : S) (fs : List Bool)
    → Reads e
        (f s)
        (record { store = s; faults = fs })
        (call e (λ s. (f s, s)) (record { store = s; faults = fs }))
unfolding call
Reads-at e f s [] = record { store = refl; answer = inl refl }
Reads-at e f s (true ∷ fs) = record { store = refl; answer = inr refl }
Reads-at e f s (false ∷ fs) = record { store = refl; answer = inl refl }

pub call-Reads {ℓ} :
    {S E A : Type ℓ} (e : E) (f : S → Result E A) (w : World S)
    → Reads e (f w.store) w (call e (λ s. (f s, s)) w)
call-Reads e f w = Reads-at e f w.store w.faults
