-- ===== src/Auth/Resets.antt =====
-- ResetPassword (backend/internal/auth/service.go) and what its token is worth afterwards.
use study_mate.Prelude.{
  ℕ, ◌≡◌, refl, String, Bool, true, false, ◌==◌, List, [], ◌∷◌, some, arith, ltb, str_eq, update,
  any, find-update, find-holds, any-update, ◌∙◌,
}
use study_mate.Exec.{Result, ok, err, IsError, World, call}
use study_mate.Auth.Model.{PasswordResetToken, Env, Error, Store, database}
use study_mate.Auth.Repository.{
  reset_token_of, get_password_reset_token, update_user_password, mark_password_reset_token_used,
}
use study_mate.Auth.Validation.{validate_password}
use study_mate.Auth.Registration.{hashed}
use study_mate.Auth.Passwords.{reset_password}

-- the rows after a reset: the user's new hash, the token used
abbrev pub with_hash : ℕ → String → Store → Store
with_hash id hash s = record s {
  users = update (λ u. u.id == id) (λ u. record u { password_hash = hash }) s.users;
}

abbrev pub with_used : String → Store → Store
with_used token s = record s {
  reset_tokens = update (λ t. str_eq t.token token) (λ t. record t { used = true }) s.reset_tokens;
}

-- a token that is marked used is refused for good
used_refused :
    (env : Env) (now : ℕ) (salt token new_password confirm : String) (s : Store)
    (t : PasswordResetToken) (fs : List Bool)
    → reset_token_of s token ≡ some t
    → t.used ≡ true
    → let r =
        reset_password env now salt token new_password confirm
          (record { store = s; faults = fs }) in
      IsError r.0 × (r.1.store ≡ s)
unfolding reset_password get_password_reset_token call
used_refused env now salt token new_password confirm s t fs found used = ground (arith, found, used)

-- what a request is made with
pub record Request : Type 0 where
  pub now : ℕ
  pub salt : String
  pub new_password : String
  pub confirm : String

abbrev pub reset : Env → String → Request → World Store → Result Error Unit × World Store
reset env token r = reset_password env r.now r.salt token r.new_password r.confirm

-- a request that passes the checks
pub record IsGood (env : Env) (t : PasswordResetToken) (r : Request) : Type 0 where
  pub same : str_eq r.new_password r.confirm ≡ true
  pub strong : validate_password env r.new_password ≡ ok tt
  pub early : ltb t.expires_at r.now ≡ false

reset_done :
    (env : Env) (token : String) (r : Request) (s : Store) (t : PasswordResetToken)
    → reset_token_of s token ≡ some t
    → t.used ≡ false
    → any (λ u. u.id == t.user_id) s.users ≡ true
    → IsGood env t r
    → reset env token r (record { store = s; faults = [] }) ≡ (
      ok tt,
      record {
        store = with_used token (with_hash t.user_id (env.hash_password r.salt r.new_password) s);
        faults = [];
      },
    )
unfolding reset_password get_password_reset_token update_user_password
    mark_password_reset_token_used hashed call
reset_done env token r s t found fresh user good =
    rw (good.same, good.strong, found, fresh, good.early, user) refl

reset_half :
    (env : Env) (token : String) (r : Request) (s : Store) (t : PasswordResetToken)
    → reset_token_of s token ≡ some t
    → t.used ≡ false
    → any (λ u. u.id == t.user_id) s.users ≡ true
    → IsGood env t r
    → reset env token r (record { store = s; faults = false ∷ false ∷ false ∷ true ∷ [] }) ≡ (
      err database,
      record {
        store = with_hash t.user_id (env.hash_password r.salt r.new_password) s;
        faults = [];
      },
    )
unfolding reset_password get_password_reset_token update_user_password
    mark_password_reset_token_used hashed call
reset_half env token r s t found fresh user good =
    rw (good.same, good.strong, found, fresh, good.early, user) refl

used_after :
    (token : String) (s : Store) (t : PasswordResetToken)
    → reset_token_of s token ≡ some t
    → reset_token_of (with_used token s) token ≡ some (record t { used = true })
used_after token s t found =
    find-update (λ t. str_eq t.token token) (λ t. str_eq t.token token)
      (λ t. record t { used = true }) s.reset_tokens t (λ y. refl) found
    ∙ rw (find-holds (λ t. str_eq t.token token) s.reset_tokens t found) refl

-- A good reset with no failing call stores the digest of the new password for the token's user. From
-- then on every reset with the same token ends in an error and changes nothing, whatever calls fail.
pub reset_once :
    (env : Env) (token : String) (r : Request) (s : Store) (t : PasswordResetToken)
    → reset_token_of s token ≡ some t
    → t.used ≡ false
    → any (λ u. u.id == t.user_id) s.users ≡ true
    → IsGood env t r
    → let after =
        with_used token (with_hash t.user_id (env.hash_password r.salt r.new_password) s) in
      (reset env token r (record { store = s; faults = [] })
        ≡ (ok tt, record { store = after; faults = [] }))
      × ((again : Request) (fs : List Bool)
          → IsError (reset env token again (record { store = after; faults = fs })).0
            × ((reset env token again (record { store = after; faults = fs })).1.store ≡ after))
reset_once env token r s t found fresh user good =
    let hashed_store = with_hash t.user_id (env.hash_password r.salt r.new_password) s in
    (
      reset_done env token r s t found fresh user good,
      λ again fs.
          used_refused env again.now again.salt token again.new_password again.confirm
            (with_used token hashed_store) (record t { used = true }) fs
            (used_after token hashed_store t found) refl,
    )

-- When only the last call fails, which marks the token used, the request fails although the new password
-- is stored, and the same token can reset the password once more.
pub reset_again :
    (env : Env) (token : String) (r again : Request) (s : Store) (t : PasswordResetToken)
    → reset_token_of s token ≡ some t
    → t.used ≡ false
    → any (λ u. u.id == t.user_id) s.users ≡ true
    → IsGood env t r
    → IsGood env t again
    → let half = with_hash t.user_id (env.hash_password r.salt r.new_password) s in
      (reset env token r (record { store = s; faults = false ∷ false ∷ false ∷ true ∷ [] })
        ≡ (err database, record { store = half; faults = [] }))
      × (reset env token again (record { store = half; faults = [] }) ≡ (
        ok tt,
        record {
          store =
              with_used token
                (with_hash t.user_id (env.hash_password again.salt again.new_password) half);
          faults = [];
        },
      ))
reset_again env token r again s t found fresh user good good' = (
  reset_half env token r s t found fresh user good,
  reset_done env token again (with_hash t.user_id (env.hash_password r.salt r.new_password) s) t
      found fresh
      (any-update (λ u. u.id == t.user_id) (λ u. u.id == t.user_id)
          (λ u. record u { password_hash = env.hash_password r.salt r.new_password }) s.users
          (λ u. refl)
        ∙ user)
      good',
)
