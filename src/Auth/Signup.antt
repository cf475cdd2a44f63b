-- ===== src/Auth/Signup.antt =====
-- Whom Register (backend/internal/auth/service.go) lets in, and what it leaves when a call fails.
mod Half
use study_mate.Prelude.{
  ℕ, suc, ◌≡◌, refl, String, Bool, true, false, not, List, [], ◌∷◌, Option, some, none, inl, inr,
  arith, ap, sym, subst, find-any, str_eq, str_refl, any, find, select, if◌then◌else◌, Bool-cases,
  Option-cases,
}
use study_mate.Exec.{
  Result, ok, err, IsOk, IsError, IsOk-IsError, World, call, attempt, guard, Result-cases,
}
use study_mate.Exec.Reading.{
  Query, Query-bind, Query-call, Query-guard, Query-imp, Query-lift, Query-pure, Query-attempt,
  Query-then, ok_value, IfOk,
}
use study_mate.Exec.Keeps.{Keeps, keeps_rules, Keeps-call}
use study_mate.Auth.Model.{
  User, EmailVerificationOtp, Env, Error, Store, database, email_registered,
}
use study_mate.Auth.Repository.{
  or_missing, user_of_email, verified_otp_of, get_verified_email_otp_by_token, get_user_by_email,
  create_user, create_user_profile, delete_email_otps_for_email,
}
use study_mate.Auth.Tokens.{
  TokenResponse, token_response, generate_access_token, generate_refresh_token,
}
use study_mate.Auth.Registration.{
  RegisterRequest, Validated, validate_request, is_live_until, hashed, new_user, register,
  finish_signup, checked_signup, add_student, check_unused, found, welcomed, deliver,
}

-- what Register has checked before it adds a user
pub record IsVerified (env : Env) (now : ℕ) (salt : String) (r : RegisterRequest) (s : Store)
    (c : Validated × String) : Type 0 where
  pub otp : EmailVerificationOtp
  pub valid : validate_request env r ≡ ok c.0
  pub stored_otp : verified_otp_of s c.0.email r.verification_token ≡ some otp
  pub live : is_live_until now otp.token_expires_at ≡ true
  pub digest : c.1 ≡ env.hash_password salt r.password

check_unused-Query : (email : String) (s : Store) → Query s (λ _. Unit) (check_unused email)
unfolding check_unused get_user_by_email
check_unused-Query email s =
    Query-bind (λ (r : Result Error User). IfOk (λ _. Unit) r) (attempt (get_user_by_email email))
      (λ existing. guard (not (found existing)) email_registered)
      (Query-attempt _
        (Query-imp (Query-call _ _ (ok_value (or_missing (user_of_email s email)))) (λ _ _. tt)))
      λ existing _. Query-imp (Query-guard _ _) (λ _ _. tt)

present : {A : Type 0} (o : Option A) (a : A) → or_missing o ≡ ok a → o ≡ some a
present none a h = ground arith
present (some b) a h = ground arith

pub checked_signup-Query :
    (env : Env) (now : ℕ) (salt : String) (r : RegisterRequest) (s : Store)
    → Query s (IsVerified env now salt r s) (checked_signup env now salt r)
unfolding checked_signup get_verified_email_otp_by_token hashed
checked_signup-Query env now salt r s =
    Query-bind (λ (v : Validated). validate_request env r ≡ ok v) _ _
      (Query-lift _ (ok_value (validate_request env r)))
      λ v valid.
        Query-bind
          (λ (o : EmailVerificationOtp).
            or_missing (verified_otp_of s v.email r.verification_token) ≡ ok o)
          _ _ (Query-call _ _ (ok_value _))
          λ o mailed.
            Query-bind (λ _. is_live_until now o.token_expires_at ≡ true) _ _ (Query-guard _ _)
              λ _ live.
                Query-bind (λ _. Unit) _ _ (check_unused-Query v.email s)
                  λ _ _.
                    Query-bind (λ (h : String). h ≡ env.hash_password salt r.password) _ _
                      (Query-call _ _ refl)
                      λ hash digest.
                        Query-pure (v, hash)
                          (record {
                            otp = o;
                            valid = valid;
                            stored_otp = present _ o mailed;
                            live = live;
                            digest = digest;
                          })

finish_signup-Keeps :
    (env : Env) (now : ℕ) (v : Validated) (u : User) (us : List User)
    → Keeps (λ s. s.users ≡ us) (finish_signup env now v u)
unfolding finish_signup create_user_profile delete_email_otps_for_email welcomed deliver
    token_response generate_access_token generate_refresh_token
finish_signup-Keeps env now v u us = search (keeps_rules, Keeps-call) depth 14

finished_users :
    (env : Env) (now : ℕ) (v : Validated) (u : User) (s : Store) (fs : List Bool)
    → (finish_signup env now v u (record { store = s; faults = fs })).1.store.users ≡ s.users
finished_users env now v u s fs =
    (finish_signup-Keeps env now v u s.users).at (record { store = s; faults = fs }) refl

-- the row that Register adds
abbrev pub student : Validated × String → ℕ → User
student c id = record (new_user c.0 c.1) { id = id }

-- the table of users after Register: as it was, or with one more row, for an address that was free
pub data Signup (s : Store) (c : Validated × String) (after : List User) : Type 0 where
  refused : after ≡ s.users → Signup s c after
  added :
      any (λ u. str_eq u.email c.0.email) s.users ≡ false
      → after ≡ student c s.next_id ∷ s.users
      → Signup s c after

abbrev pub stored : Validated × String → Store → Store
stored c s = record s { users = student c s.next_id ∷ s.users; next_id = suc s.next_id }

added_row :
    (env : Env) (now : ℕ) (c : Validated × String) (s : Store) (fs : List Bool)
    → any (λ u. str_eq u.email c.0.email) s.users ≡ false
    → Signup s c (add_student env now c (record { store = s; faults = fs })).1.store.users
unfolding add_student create_user call new_user
added_row env now c s [] free =
    added free (rw free (finished_users env now c.0 (student c s.next_id) (stored c s) []))
added_row env now c s (true ∷ fs) free = refused refl
added_row env now c s (false ∷ fs) free =
    added free (rw free (finished_users env now c.0 (student c s.next_id) (stored c s) fs))

pub taken_row :
    (env : Env) (now : ℕ) (c : Validated × String) (s : Store) (fs : List Bool)
    → any (λ u. str_eq u.email c.0.email) s.users ≡ true
    → IsError (add_student env now c (record { store = s; faults = fs })).0
      × ((add_student env now c (record { store = s; faults = fs })).1.store ≡ s)
unfolding add_student create_user call new_user
taken_row env now c s [] taken = rw taken (tt, refl)
taken_row env now c s (true ∷ fs) taken = (tt, refl)
taken_row env now c s (false ∷ fs) taken = rw taken (tt, refl)

add_student-Signup :
    (env : Env) (now : ℕ) (c : Validated × String) (w : World Store)
    → Signup w.store c (add_student env now c w).1.store.users
add_student-Signup env now c w =
    elim (Bool-cases (any (λ u. str_eq u.email c.0.email) w.store.users)) [
      | inl h ↦ refused (ap (λ (s : Store). s.users) (taken_row env now c w.store w.faults h).1)
      | inr h ↦ added_row env now c w.store w.faults h
    ]

-- how Register ended
pub data Registered (env : Env) (now : ℕ) (salt : String) (r : RegisterRequest) (s : Store)
    (answer : Result Error TokenResponse × World Store) : Type 0 where
  unchanged : IsError answer.0 → answer.1.store ≡ s → Registered env now salt r s answer
  checked :
      (c : Validated × String)
      → IsVerified env now salt r s c
      → Signup s c answer.1.store.users
      → Registered env now salt r s answer

-- Whatever calls fail, Register either ends in an error and changes nothing, or the request was valid, a
-- verified row with its address and its token is stored, whose token is not too old, and the table of
-- users is the old one or has one row more: the student with the digest of the password, at a free
-- address.
pub register-Registered :
    (env : Env) (now : ℕ) (salt : String) (r : RegisterRequest) (w : World Store)
    → Registered env now salt r w.store (register env now salt r w)
unfolding register
register-Registered env now salt r w =
    elim (Query-then (add_student env now) w (checked_signup-Query env now salt r w.store)) [
      | inl (failed, same) ↦ unchanged failed same
      | inr (c, verified, u, same, run) ↦ checked c verified (
          subst (λ x. Signup w.store c x.1.store.users) (sym run)
            (subst (λ s. Signup s c (add_student env now c u).1.store.users) same
              (add_student-Signup env now c u)))
    ]
