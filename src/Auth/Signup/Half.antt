-- ===== src/Auth/Signup/Half.antt =====
-- What Register leaves when only the creation of the profile fails.
use study_mate.Prelude.{
  ℕ, ◌≡◌, refl, String, Bool, true, false, List, [], ◌∷◌, some, inl, inr, sym, subst, find-any,
  str_eq, str_refl, any,
}
use study_mate.Exec.{one_value, Result, ok, err, IsError, World, call}
use study_mate.Exec.Reading.{Query-then}
use study_mate.Auth.Model.{EmailVerificationOtp, Env, Error, Store, database}
use study_mate.Auth.Repository.{
  verified_otp_of, get_verified_email_otp_by_token, get_user_by_email, create_user,
  create_user_profile,
}
use study_mate.Auth.Tokens.{TokenResponse}
use study_mate.Auth.Registration.{
  RegisterRequest, Validated, validate_request, is_live_until, hashed, new_user, register,
  finish_signup, checked_signup, add_student, check_unused,
}
use study_mate.Auth.Signup.{stored, taken_row, checked_signup-Query}

half_done :
    (env : Env) (now : ℕ) (salt : String) (r : RegisterRequest) (s : Store) (v : Validated)
    (o : EmailVerificationOtp)
    → validate_request env r ≡ ok v
    → verified_otp_of s v.email r.verification_token ≡ some o
    → is_live_until now o.token_expires_at ≡ true
    → any (λ u. str_eq u.email v.email) s.users ≡ false
    → register env now salt r
        (record { store = s; faults = false ∷ false ∷ false ∷ false ∷ true ∷ [] })
      ≡ (
        err database,
        record { store = stored (v, env.hash_password salt r.password) s; faults = [] },
      )
unfolding register checked_signup add_student get_verified_email_otp_by_token check_unused
    get_user_by_email hashed new_user create_user create_user_profile finish_signup call
half_done env now salt r s v o valid mailed live free =
    rw (valid, mailed, live, find-any (λ u. str_eq u.email v.email) s.users free, free) refl

taken_at :
    (env : Env) (now : ℕ) (c : Validated × String) (s : Store) (u : World Store)
    (answer : Result Error TokenResponse × World Store)
    → any (λ u. str_eq u.email c.0.email) s.users ≡ true
    → u.store ≡ s
    → answer ≡ add_student env now c u
    → IsError answer.0 × (answer.1.store ≡ s)
taken_at env now c s u answer taken same run =
    subst (λ x. IsError x.0 × (x.1.store ≡ s)) (sym run)
      (subst (λ t. IsError (add_student env now c u).0 × ((add_student env now c u).1.store ≡ t))
        same
        (taken_row env now c u.store u.faults (
          subst (λ (t : Store). any (λ u. str_eq u.email c.0.email) t.users ≡ true) (sym same)
            taken)))

still_taken :
    (env : Env) (now : ℕ) (salt : String) (r : RegisterRequest) (s : Store) (v : Validated)
    (fs : List Bool)
    → validate_request env r ≡ ok v
    → any (λ u. str_eq u.email v.email) s.users ≡ true
    → IsError (register env now salt r (record { store = s; faults = fs })).0
      × ((register env now salt r (record { store = s; faults = fs })).1.store ≡ s)
unfolding register
still_taken env now salt r s v fs valid taken =
    elim (Query-then (add_student env now) (record { store = s; faults = fs })
      (checked_signup-Query env now salt r s)) [
        | inl failed ↦ failed
        | inr (c, verified, u, same, run) ↦
            taken_at env now c s u _
              (subst (λ (x : Validated). any (λ u. str_eq u.email x.email) s.users ≡ true)
                (one_value (validate_request env r) v c.0 valid verified.valid) taken)
              same run
      ]

-- When only the creation of the profile fails, Register fails although the user's row stays, and every
-- later request for the same address is refused and changes nothing, whatever calls fail.
pub register_half :
    (env : Env) (now : ℕ) (salt : String) (r : RegisterRequest) (s : Store) (v : Validated)
    (o : EmailVerificationOtp)
    → validate_request env r ≡ ok v
    → verified_otp_of s v.email r.verification_token ≡ some o
    → is_live_until now o.token_expires_at ≡ true
    → any (λ u. str_eq u.email v.email) s.users ≡ false
    → let half = stored (v, env.hash_password salt r.password) s in
      (register env now salt r
          (record { store = s; faults = false ∷ false ∷ false ∷ false ∷ true ∷ [] })
        ≡ (err database, record { store = half; faults = [] }))
      × ((later : ℕ) (again : RegisterRequest) (c : Validated) (fs : List Bool)
          → validate_request env again ≡ ok c
          → c.email ≡ v.email
          → IsError (register env later salt again (record { store = half; faults = fs })).0
            × ((register env later salt again (record { store = half; faults = fs })).1.store
                ≡ half))
unfolding new_user
register_half env now salt r s v o valid mailed live free = (
  half_done env now salt r s v o valid mailed live free,
  λ later again c fs fine same.
      still_taken env later salt again (stored (v, env.hash_password salt r.password) s) c fs fine
        (rw (same, str_refl v.email) refl),
)
