-- ===== src/Exec/Calm.antt =====
-- Actions with no failing call ahead: what holds after them, one rule for each way to build one.
-- `Run H K R m` says that `m`, run where `H` holds and no call fails, ends where `K` holds if it
-- returns and where `R` holds if it raises, and leaves no failing call ahead.
use study_mate.Prelude.{◌≡◌, refl, Bool, true, false, List, [], ◌∷◌, arith, if◌then◌else◌}
use study_mate.Exec.{
  Result, ok, err, World, Act, pure, raise, lift, step, call, attempt, caught, guard, and_then,
  ◌>>=◌,
}

abbrev pub Ends {ℓ} : {S E A : Type ℓ} → (S → Type ℓ) → (S → Type ℓ) → Result E A → S → Type ℓ
Ends K R (ok a) s = K s
Ends K R (err e) s = R s

pub record Run {ℓ} {S E A : Type ℓ} (H K R : S → Type ℓ) (m : Act S E A) : Type ℓ where
  pub at :
      (w : World S)
      → w.faults ≡ []
      → H w.store
      → ((m w).1.faults ≡ []) × Ends K R (m w).0 (m w).1.store

module _ {ℓ} {S E A : Type ℓ} (H K R : S → Type ℓ) where
  call-Ends :
      (e : E) (f : S → Result E A × S)
      → ((s : S) → H s → Ends K R (f s).0 (f s).1)
      → (s : S) (fs : List Bool) → fs ≡ []
      → H s
      → let r = call e f (record { store = s; faults = fs }) in
        (r.1.faults ≡ []) × Ends K R r.0 r.1.store
  unfolding call
  call-Ends e f k s [] none h = (refl, k s h)
  call-Ends e f k s (b ∷ fs) none h = ground (arith, none)

module _ {ℓ} {S E A : Type ℓ} {H K R : S → Type ℓ} where
  pub Run-call :
      (e : E) (f : S → Result E A × S)
      → ((s : S) → H s → Ends K R (f s).0 (f s).1)
      → Run H K R (call e f)
  Run-call e f k = record { at = λ w none h. call-Ends H K R e f k w.store w.faults none h }

  pub Run-if :
      {yes no : Act S E A} (test : Bool)
      → Run H K R yes
      → Run H K R no
      → Run H K R (if test then yes else no)
  Run-if true y n = y
  Run-if false y n = n

module _ {ℓ} {S E A : Type ℓ} {H R : S → Type ℓ} where
  pub Run-pure : (a : A) → Run {E = E} H H R (pure a)
  Run-pure a = record { at = λ w none h. (none, h) }

  pub Run-step : (f : S → A × S) → ((s : S) → H s → H (f s).1) → Run {E = E} H H R (step f)
  Run-step f k = record { at = λ w none h. (none, k w.store h) }

  pub Run-raise : (e : E) → Run {A = A} H R H (raise e)
  Run-raise e = record { at = λ w none h. (none, h) }

module _ {ℓ} {S E A : Type ℓ} (H : S → Type ℓ) where
  lift-Ends : (r : Result E A) (s : S) → H s → Ends H H r s
  lift-Ends (ok a) s h = h
  lift-Ends (err e) s h = h

module _ {ℓ} {S E A : Type ℓ} {H : S → Type ℓ} where
  -- a call after which the invariant holds, however it ends
  pub Run-keep :
      (e : E) (f : S → Result E A × S) → ((s : S) → H s → H (f s).1) → Run H H H (call e f)
  Run-keep e f k = Run-call e f λ s h. lift-Ends H (f s).0 (f s).1 (k s h)

  pub Run-lift : (r : Result E A) → Run H H H (lift r)
  Run-lift r = record { at = λ w none h. (none, lift-Ends H r w.store h) }

module _ {ℓ} {S E A : Type ℓ} (K R : S → Type ℓ) where
  caught-Ends :
      (r : Result E A) (w : World S)
      → w.faults ≡ []
      → Ends K K r w.store
      → ((caught (r, w)).1.faults ≡ []) × Ends K R (caught (r, w)).0 (caught (r, w)).1.store
  caught-Ends (ok a) w none k = (none, k)
  caught-Ends (err e) w none k = (none, k)

module _ {ℓ} {S E A : Type ℓ} {H K R : S → Type ℓ} where
  pub Run-attempt : (m : Act S E A) → Run H K K m → Run H K R (attempt m)
  Run-attempt m rm = record {
    at = λ w none h. let r = rm.at w none h in caught-Ends K R (m w).0 (m w).1 r.0 r.1;
  }

module _ {ℓ} {S E A B : Type ℓ} (K L R : S → Type ℓ) where
  and_then-Ends :
      (f : A → Act S E B)
      → ((a : A) → Run K L R (f a))
      → (r : Result E A) (w : World S) → w.faults ≡ []
      → Ends K R r w.store
      → ((and_then f (r, w)).1.faults ≡ [])
        × Ends L R (and_then f (r, w)).0 (and_then f (r, w)).1.store
  and_then-Ends f rf (ok a) w none k = (rf a).at w none k
  and_then-Ends f rf (err e) w none k = (none, k)

module _ {ℓ} {S E A B : Type ℓ} {H L R : S → Type ℓ} where
  pub Run-then :
      (K : S → Type ℓ) (m : Act S E A) (f : A → Act S E B)
      → Run H K R m
      → ((a : A) → Run K L R (f a))
      → Run H L R (m >>= f)
  Run-then K m f rm rf = record {
    at = λ w none h. let r = rm.at w none h in and_then-Ends K L R f rf (m w).0 (m w).1 r.0 r.1;
  }

  -- the first action keeps what holds
  pub Run-bind :
      (m : Act S E A) (f : A → Act S E B)
      → Run H H R m
      → ((a : A) → Run H L R (f a))
      → Run H L R (m >>= f)
  Run-bind m f rm rf = Run-then H m f rm rf

module _ {ℓ} {S E : Type ℓ} {H : S → Type ℓ} where
  pub Run-guard : (b : Bool) (e : E) → Run {S = S} H H H (guard b e)
  Run-guard true e = Run-pure tt
  Run-guard false e = Run-raise e

pub ruleset run_rules = (Run-pure, Run-raise, Run-lift, Run-if, Run-attempt, Run-bind, Run-guard)
