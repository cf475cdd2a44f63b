-- ===== src/Exec/Keeps.antt =====
-- Invariants of actions: one rule for each way to build an action.
use study_mate.Prelude.{Bool, true, false, List, [], ◌∷◌, if◌then◌else◌}
use study_mate.Exec.{
  Result, ok, err, World, Act, pure, raise, lift, call, attempt, step, transaction, settle,
  and_then, guard, ◌>>=◌,
}

-- whatever calls fail, and whether `m` returns or raises, `P` holds of the store after it
pub record Keeps {ℓ} {S E A : Type ℓ} (P : S → Type ℓ) (m : Act S E A) : Type ℓ where
  pub at : (w : World S) → P w.store → P (m w).1.store

settle_step {ℓ} :
    {S E A : Type ℓ} (P : S → Type ℓ) (s : S) (r : Result E A) (w : World S)
    → P s
    → P w.store
    → P (settle s (r, w)).1.store
settle_step P s (ok a) w h k = k
settle_step P s (err e) w h k = h

module _ {ℓ} {S E A : Type ℓ} {P : S → Type ℓ} where
  -- what does not touch the store
  pub Keeps-lift : (r : Result E A) → Keeps P (lift r)
  Keeps-lift r = record { at = λ w h. h }

  pub Keeps-pure : (a : A) → Keeps {E = E} P (pure a)
  Keeps-pure a = Keeps-lift (ok a)

  pub Keeps-raise : (e : E) → Keeps {A = A} P (raise e)
  Keeps-raise e = Keeps-lift (err e)

  call_step :
      (e : E) (f : S → Result E A × S)
      → ((s : S) → P s → P (f s).1)
      → (w : World S) (faults : List Bool) → P w.store
      → P (call e f (record w { faults = faults })).1.store
  unfolding call
  call_step e f kf w [] h = kf w.store h
  call_step e f kf w (true ∷ rest) h = h
  call_step e f kf w (false ∷ rest) h = kf w.store h

  pub Keeps-call :
      (e : E) (f : S → Result E A × S) → ((s : S) → P s → P (f s).1) → Keeps P (call e f)
  Keeps-call e f kf = record { at = λ w h. call_step e f kf w w.faults h }

  pub Keeps-step : (f : S → A × S) → ((s : S) → P s → P (f s).1) → Keeps {E = E} P (step f)
  Keeps-step f kf = record { at = λ w h. kf w.store h }

  pub Keeps-if :
      {yes no : Act S E A} (test : Bool)
      → Keeps P yes
      → Keeps P no
      → Keeps P (if test then yes else no)
  Keeps-if true ky kn = ky
  Keeps-if false ky kn = kn

  pub Keeps-attempt : (m : Act S E A) → Keeps P m → Keeps P (attempt m)
  Keeps-attempt m km = record { at = λ w h. km.at w h }

  pub Keeps-transaction : (m : Act S E A) → Keeps P m → Keeps P (transaction m)
  Keeps-transaction m km = record {
    at = λ w h. settle_step P w.store (m w).0 (m w).1 h (km.at w h);
  }

module _ {ℓ} {S E A B : Type ℓ} {P : S → Type ℓ} where
  continue_step :
      (next : A → Act S E B)
      → ((a : A) → Keeps P (next a))
      → (r : Result E A) (w : World S) → P w.store
      → P (and_then next (r, w)).1.store
  continue_step next kn (ok a) w h = (kn a).at w h
  continue_step next kn (err e) w h = h

  pub Keeps-bind :
      (first : Act S E A) (next : A → Act S E B)
      → Keeps P first
      → ((a : A) → Keeps P (next a))
      → Keeps P (first >>= next)
  Keeps-bind first next kf kn = record {
    at = λ w h. continue_step next kn (first w).0 (first w).1 (kf.at w h);
  }

module _ {ℓ} {S E : Type ℓ} {P : S → Type ℓ} where
  pub Keeps-guard : (b : Bool) (e : E) → Keeps {S = S} P (guard b e)
  Keeps-guard true e = Keeps-pure tt
  Keeps-guard false e = Keeps-raise e

pub ruleset keeps_rules = (
  Keeps-pure, Keeps-raise, Keeps-lift, Keeps-if, Keeps-attempt, Keeps-transaction, Keeps-bind,
  Keeps-guard,
)
