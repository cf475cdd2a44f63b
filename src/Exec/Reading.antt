-- ===== src/Exec/Reading.antt =====
-- Actions that only read: one rule for each way to build one. `Query s Q m` says that `m`, run on the
-- store `s`, leaves it alone, whatever calls fail, and that `Q` holds of what it returns, if it does.
use study_mate.Prelude.{◌⊎◌, inl, inr, ◌≡◌, refl, ap, Bool, true, false, List, [], ◌∷◌, sym, subst}
use study_mate.Exec.{
  lift, IsError, Result, ok, err, World, Act, pure, raise, call, attempt, and_then, guard, ◌>>=◌,
}

abbrev pub IfOk {ℓ} : {E A : Type ℓ} → (A → Type ℓ) → Result E A → Type ℓ
IfOk P (ok a) = P a
IfOk P (err e) = Unit

-- what a result says of itself
pub ok_value {ℓ} : {E A : Type ℓ} (r : Result E A) → IfOk (λ a. r ≡ ok a) r
ok_value (ok a) = refl
ok_value (err e) = tt

pub record Query {ℓ} {S E A : Type ℓ} (s : S) (Q : A → Type ℓ) (m : Act S E A) : Type ℓ where
  pub at : (w : World S) → w.store ≡ s → ((m w).1.store ≡ s) × IfOk Q (m w).0

module _ {ℓ} {S E A : Type ℓ} (s : S) (Q : A → Type ℓ) where
  call_reads :
      (e : E) (f : S → Result E A) (t : S) (fs : List Bool)
      → t ≡ s
      → IfOk Q (f s)
      → let r = call e (λ s. (f s, s)) (record { store = t; faults = fs }) in
        (r.1.store ≡ s) × IfOk Q r.0
  unfolding call
  call_reads e f t [] h q = (h, subst (λ x. IfOk Q (f x)) (sym h) q)
  call_reads e f t (true ∷ fs) h q = (h, tt)
  call_reads e f t (false ∷ fs) h q = (h, subst (λ x. IfOk Q (f x)) (sym h) q)

module _ {ℓ} {S E A : Type ℓ} {s : S} {Q : A → Type ℓ} where
  pub Query-pure : (a : A) → Q a → Query {E = E} s Q (pure a)
  Query-pure a q = record { at = λ w h. (h, q) }

  pub Query-lift : (r : Result E A) → IfOk Q r → Query s Q (lift r)
  Query-lift r q = record { at = λ w h. (h, q) }

  pub Query-raise : (e : E) → Query s Q (raise e)
  Query-raise e = record { at = λ w h. (h, tt) }

  pub Query-attempt :
      (m : Act S E A) → Query s Q m → Query s (λ (r : Result E A). IfOk Q r) (attempt m)
  Query-attempt m qm = record { at = λ w h. qm.at w h }

  pub Query-call : (e : E) (f : S → Result E A) → IfOk Q (f s) → Query s Q (call e (λ s. (f s, s)))
  Query-call e f q = record { at = λ w h. call_reads s Q e f w.store w.faults h q }

-- what is read of the store without a call of its own
pub Query-read {ℓ} :
    {S E A : Type ℓ} {s : S} (f : S → A) → Query {E = E} s (λ a. a ≡ f s) (λ w. (ok (f w.store), w))
Query-read f = record { at = λ w h. (h, ap f h) }

module _ {ℓ} {S E A B : Type ℓ} {s : S} (Q : A → Type ℓ) {R : B → Type ℓ} where
  then_reads :
      (f : A → Act S E B) (r : Result E A) (w : World S)
      → ((a : A) → Q a → Query s R (f a))
      → w.store ≡ s
      → IfOk Q r
      → ((and_then f (r, w)).1.store ≡ s) × IfOk R (and_then f (r, w)).0
  then_reads f (ok a) w k h q = (k a q).at w h
  then_reads f (err e) w k h q = (h, tt)

  pub Query-bind :
      (m : Act S E A) (f : A → Act S E B)
      → Query s Q m
      → ((a : A) → Q a → Query s R (f a))
      → Query s R (m >>= f)
  Query-bind m f qm k = record {
    at = λ w h. let p = qm.at w h in then_reads f (m w).0 (m w).1 k p.0 p.1;
  }

module _ {ℓ} {E A : Type ℓ} {Q R : A → Type ℓ} where
  imp_ok : (r : Result E A) → ((a : A) → Q a → R a) → IfOk Q r → IfOk R r
  imp_ok (ok a) k q = k a q
  imp_ok (err e) k q = tt

  pub Query-imp :
      {S : Type ℓ} {s : S} {m : Act S E A} → Query s Q m → ((a : A) → Q a → R a) → Query s R m
  Query-imp {S} {s} {m} qm k = record {
    at = λ w h. ((qm.at w h).0, imp_ok (m w).0 k (qm.at w h).1);
  }

-- what follows a query: the query failed, or the rest runs on the same store
module _ {ℓ} {S E A B : Type ℓ} {Q : A → Type ℓ} (f : A → Act S E B) where
  run_on :
      (s : S) (r : Result E A) (w : World S)
      → w.store ≡ s
      → IfOk Q r
      → (IsError (and_then f (r, w)).0 × ((and_then f (r, w)).1.store ≡ s))
        ⊎ ((a : A) × Q a × (u : World S) × (u.store ≡ s) × (and_then f (r, w) ≡ f a u))
  run_on s (ok a) w h q = inr (a, q, w, h, refl)
  run_on s (err e) w h q = inl (tt, h)

  pub Query-then :
      {m : Act S E A} (w : World S)
      → Query w.store Q m
      → (IsError ((m >>= f) w).0 × (((m >>= f) w).1.store ≡ w.store))
        ⊎ ((a : A) × Q a × (u : World S) × (u.store ≡ w.store) × ((m >>= f) w ≡ f a u))
  Query-then {m} w qm = run_on w.store (m w).0 (m w).1 (qm.at w refl).0 (qm.at w refl).1

module _ {S E : Type 0} {s : S} where
  pub Query-guard : (b : Bool) (e : E) → Query {S = S} {A = Unit} s (λ _. b ≡ true) (guard b e)
  Query-guard true e = Query-pure tt refl
  Query-guard false e = Query-raise e
