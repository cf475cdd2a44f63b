-- ===== src/Exec/Doing.antt =====
-- Actions that end in an error or have one effect, one rule for each way to build one. `Does g m` says
-- that `m`, whatever calls fail, ends in an error or returns and leaves what the function `g` says.
use study_mate.Prelude.{
  ◌≡◌, refl, ap, subst, ◌⊎◌, inl, inr, Bool, true, false, List, [], ◌∷◌, if◌then◌else◌,
}
use study_mate.Exec.{
  IsError, Result, ok, err, World, Act, pure, call, transaction, settle, and_then, ◌>>=◌,
}

abbrev pub Done {ℓ} : {S E A : Type ℓ} → A × S → Result E A × World S → Type ℓ
Done (a, t) r = (r.0 ≡ ok a) × (r.1.store ≡ t)

pub record Does {ℓ} {S E A : Type ℓ} (g : S → A × S) (m : Act S E A) : Type ℓ where
  pub at : (w : World S) → IsError (m w).0 ⊎ Done (g w.store) (m w)

module _ {ℓ} {S E A : Type ℓ} where
  pub Does-pure : (a : A) → Does {E = E} (λ (s : S). (a, s)) (pure a)
  Does-pure a = record { at = λ w. inr (refl, refl) }

  call_does :
      (e : E) (f : S → Result E A × S) (p : A × S) (s : S) (fs : List Bool)
      → IsError (f s).0 ⊎ (((f s).0 ≡ ok p.0) × ((f s).1 ≡ p.1))
      → let r = call e f (record { store = s; faults = fs }) in IsError r.0 ⊎ Done p r
  unfolding call
  call_does e f p s [] h = h
  call_does e f p s (true ∷ fs) h = inl tt
  call_does e f p s (false ∷ fs) h = h

  pub Does-call :
      (e : E) (f : S → Result E A × S) (g : S → A × S)
      → ((s : S) → IsError (f s).0 ⊎ (((f s).0 ≡ ok (g s).0) × ((f s).1 ≡ (g s).1)))
      → Does g (call e f)
  Does-call e f g k = record { at = λ w. call_does e f (g w.store) w.store w.faults (k w.store) }

  pub Does-if :
      {g h : S → A × S} {yes no : Act S E A} (test : Bool)
      → Does g yes
      → Does h no
      → Does (λ s. if test then g s else h s) (if test then yes else no)
  Does-if true y n = y
  Does-if false y n = n

  pub Does-as : {g h : S → A × S} {m : Act S E A} → Does g m → ((s : S) → g s ≡ h s) → Does h m
  Does-as {g} {h} {m} d same = record {
    at = λ w. subst (λ p. IsError (m w).0 ⊎ Done p (m w)) (same w.store) (d.at w);
  }

  pub settled :
      (p : A × S) (w : World S) (r : Result E A) (u : World S)
      → IsError r ⊎ Done p (r, u)
      → (IsError (settle w.store (r, u)).0 × ((settle w.store (r, u)).1.store ≡ w.store))
        ⊎ Done p (settle w.store (r, u))
  settled p w (ok a) u (inl h) = absurd h
  settled p w (ok a) u (inr d) = inr d
  settled p w (err e) u d = inl (tt, refl)

  -- a transaction: all of its effect, or an error and the store as it was
  pub transaction-Does :
      {g : S → A × S} (m : Act S E A) (w : World S)
      → Does g m
      → (IsError (transaction m w).0 × ((transaction m w).1.store ≡ w.store))
        ⊎ Done (g w.store) (transaction m w)
  transaction-Does {g} m w d = settled (g w.store) w (m w).0 (m w).1 (d.at w)

module _ {ℓ} {E A : Type ℓ} where
  value_or : A → Result E A → A
  value_or a (ok b) = b
  value_or a (err e) = a

module _ {ℓ} {S E A B : Type ℓ} where
  then_does :
      (f : A → Act S E B) (h : A → S → B × S) (p : A × S) (r : Result E A) (w : World S)
      → ((a : A) → Does (h a) (f a))
      → IsError r ⊎ Done p (r, w)
      → IsError (and_then f (r, w)).0 ⊎ Done (h p.0 p.1) (and_then f (r, w))
  unfolding value_or
  then_does f h p (ok a) w k (inl e) = absurd e
  then_does f h p (ok a) w k (inr d) =
      subst (λ b. IsError (f a w).0 ⊎ Done (h b p.1) (f a w)) (ap (value_or a) d.0)
        (subst (λ t. IsError (f a w).0 ⊎ Done (h a t) (f a w)) d.1 ((k a).at w))
  then_does f h p (err e) w k d = inl tt

  pub Does-bind :
      {g : S → A × S} {h : A → S → B × S} (m : Act S E A) (f : A → Act S E B)
      → Does g m
      → ((a : A) → Does (h a) (f a))
      → Does (λ s. h (g s).0 (g s).1) (m >>= f)
  Does-bind {g} {h} m f dm df = record {
    at = λ w. then_does f h (g w.store) (m w).0 (m w).1 df (dm.at w);
  }
