-- ===== src/Auth/Sessions.antt =====
-- Who gets tokens: Login and RefreshToken (backend/internal/auth/service.go), whatever calls fail.
use study_mate.Prelude.{
  ℕ, ◌≡◌, ◌≤◌, ◌<◌, ◌+◌, refl, String, Bool, true, false, [], some, none, List, inl, inr, arith,
  Option-cases, Bool-cases, str_eq,
}
use study_mate.Exec.{ok, err, IsOk, IsError, World, call, Result-cases, IsOk-IsError}
use study_mate.Auth.Model.{User, Env, Error, Store, token_ttl, refresh_ttl}
use study_mate.Auth.Repository.{get_user_by_email, get_user_by_id, user_of_email, user_of_id}
use study_mate.Auth.Validation.{validate_email}
use study_mate.Auth.Tokens.{
  TokenClaims, login, refresh_token, verify_token, token_response, generate_access_token,
  generate_refresh_token, info_of, claims_of,
}

-- what a login has checked
pub record IsAllowed (env : Env) (s : Store) (email password : String) : Type 0 where
  pub address : String
  pub user : User
  pub valid : validate_email env email ≡ ok address
  pub known : user_of_email s address ≡ some user
  pub proved : env.verify_password user.password_hash password ≡ true
  pub active : str_eq user.status "active" ≡ true

module _ (env : Env) (now : ℕ) (email password : String) (s : Store) (fs : List Bool) where
  login_invalid :
      (e : Error)
      → validate_email env email ≡ err e
      → IsError (login env now email password (record { store = s; faults = fs })).0
  unfolding login
  login_invalid e h = ground (arith, h)

  login_unknown :
      (a : String)
      → validate_email env email ≡ ok a
      → user_of_email s a ≡ none
      → IsError (login env now email password (record { store = s; faults = fs })).0
  unfolding login get_user_by_email call
  login_unknown a h k = rw h (ground (arith, k))

  login_wrong :
      (a : String) (u : User)
      → validate_email env email ≡ ok a
      → user_of_email s a ≡ some u
      → env.verify_password u.password_hash password ≡ false
      → IsError (login env now email password (record { store = s; faults = fs })).0
  unfolding login get_user_by_email call
  login_wrong a u h k v = rw h (ground (arith, k, v))

  login_inactive :
      (a : String) (u : User)
      → validate_email env email ≡ ok a
      → user_of_email s a ≡ some u
      → str_eq u.status "active" ≡ false
      → IsError (login env now email password (record { store = s; faults = fs })).0
  unfolding login get_user_by_email call
  login_inactive a u h k v = rw h (ground (arith, k, v))

login_of :
    (env : Env) (now : ℕ) (email password a : String) (u : User) (w : World Store)
    → validate_email env email ≡ ok a
    → user_of_email w.store a ≡ some u
    → IsOk (login env now email password w).0
    → IsAllowed env w.store email password
login_of env now email password a u w h k done =
    let fails : IsError (login env now email password w).0 → IsAllowed env w.store email password =
      IsOk-IsError (login env now email password w).0 done in
    elim (Bool-cases (env.verify_password u.password_hash password)) [
      | inr p ↦ fails (login_wrong env now email password w.store w.faults a u h k p)
      | inl p ↦ elim (Bool-cases (str_eq u.status "active")) [
        | inr q ↦ fails (login_inactive env now email password w.store w.faults a u h k q)
        | inl q ↦ record { address = a; user = u; valid = h; known = k; proved = p; active = q }
      ]
    ]

-- Whatever calls fail, a Login that succeeds was for a valid address of a stored user, whose password
-- was verified and whose status is "active".
pub login-IsAllowed :
    (env : Env) (now : ℕ) (email password : String) (w : World Store)
    → IsOk (login env now email password w).0
    → IsAllowed env w.store email password
login-IsAllowed env now email password w done =
    let fails : IsError (login env now email password w).0 → IsAllowed env w.store email password =
      IsOk-IsError (login env now email password w).0 done in
    elim (Result-cases (validate_email env email)) [
      | inr (e, h) ↦ fails (login_invalid env now email password w.store w.faults e h)
      | inl (a, h) ↦ elim (Option-cases (user_of_email w.store a)) [
        | inl k ↦ fails (login_unknown env now email password w.store w.faults a h k)
        | inr (u, k) ↦ login_of env now email password a u w h k done
      ]
    ]

-- a user who is not active
module _ (env : Env) (now : ℕ) (email password token : String) (s : Store) (u : User)
    (c : TokenClaims) where
  refreshed :
      verify_token env now token ≡ ok c
      → str_eq c.claim_type "refresh" ≡ true
      → user_of_id s c.user_id ≡ some u
      → refresh_token env now token (record { store = s; faults = [] }) ≡ (
        ok (record {
          access_token = env.sign (claims_of now token_ttl "access" u);
          refresh_token = none;
          expires_in = token_ttl;
          user = info_of u;
        }),
        record { store = s; faults = [] },
      )
  unfolding refresh_token get_user_by_id generate_access_token call
  refreshed v k h = rw (v, k, h) refl

-- For a user whose status is not "active", Login fails whatever calls fail, but RefreshToken still
-- answers a refresh token of theirs with an access token, when no call fails.
pub refresh_suspended :
    (env : Env) (now : ℕ) (email password token address : String) (s : Store) (u : User)
    (c : TokenClaims)
    → validate_email env email ≡ ok address
    → user_of_email s address ≡ some u
    → str_eq u.status "active" ≡ false
    → verify_token env now token ≡ ok c
    → str_eq c.claim_type "refresh" ≡ true
    → user_of_id s c.user_id ≡ some u
    → ((fs : List Bool)
        → IsError (login env now email password (record { store = s; faults = fs })).0)
      × (refresh_token env now token (record { store = s; faults = [] }) ≡ (
        ok (record {
          access_token = env.sign (claims_of now token_ttl "access" u);
          refresh_token = none;
          expires_in = token_ttl;
          user = info_of u;
        }),
        record { store = s; faults = [] },
      ))
refresh_suspended env now email password token address s u c valid known inactive verified kind
      found =
    (
      λ fs. login_inactive env now email password s fs address u valid known inactive,
      refreshed env now email password token s u c verified kind found,
    )

-- what the JWT library promises of the tokens of one login: while they last, they are parsed into
-- what was signed
pub record IsReadable (env : Env) (made now : ℕ) (u : User) : Type 0 where
  pub access :
      made ≤ now
      → now < made + token_ttl
      → env.parse now (env.sign (claims_of made token_ttl "access" u))
        ≡ some (claims_of made token_ttl "access" u)
  pub refresh :
      made ≤ now
      → now < made + refresh_ttl
      → env.parse now (env.sign (claims_of made refresh_ttl "refresh" u))
        ≡ some (claims_of made refresh_ttl "refresh" u)

-- what VerifyToken makes of the claims of a user
abbrev pub token_claims : User → String → TokenClaims
token_claims u kind = record { user_id = u.id; email = u.email; role = u.role; claim_type = kind }

verified_of :
    (env : Env) (kind : String) (made now ttl : ℕ) (u : User)
    → env.parse now (env.sign (claims_of made ttl kind u)) ≡ some (claims_of made ttl kind u)
    → str_eq u.role "" ≡ false
    → str_eq kind "" ≡ false
    → verify_token env now (env.sign (claims_of made ttl kind u)) ≡ ok (token_claims u kind)
unfolding verify_token claims_of
verified_of env kind made now ttl u parsed role k = rw (parsed, role, k) refl

wrong_kind :
    (env : Env) (now : ℕ) (token : String) (c : TokenClaims) (s : Store) (fs : List Bool)
    → verify_token env now token ≡ ok c
    → str_eq c.claim_type "refresh" ≡ false
    → IsError (refresh_token env now token (record { store = s; faults = fs })).0
unfolding refresh_token
wrong_kind env now token c s fs h k = rw (h, k) tt

-- The two tokens of a Login verify, while they last, to the user's number, address and role and to
-- their kinds, and RefreshToken refuses the access token whatever calls fail.
pub verify_token-token_response :
    (env : Env) (made now : ℕ) (u : User) (s : Store)
    → IsReadable env made now u
    → made ≤ now
    → now < made + token_ttl
    → str_eq u.role "" ≡ false
    → (access : String) × (refresh : String) × (token_response env made u
          (record { store = s; faults = [] })
        ≡ (
          ok (record {
            access_token = access;
            refresh_token = some refresh;
            expires_in = token_ttl;
            user = info_of u;
          }),
          record { store = s; faults = [] },
        ))
      × (verify_token env now access ≡ ok (token_claims u "access"))
      × (verify_token env now refresh ≡ ok (token_claims u "refresh"))
      × ((fs : List Bool)
          → IsError (refresh_token env now access (record { store = s; faults = fs })).0)
unfolding token_response generate_access_token generate_refresh_token call
verify_token-token_response env made now u s readable from until role =
    let verified =
      verified_of env "access" made now token_ttl u (readable.access from until) role refl in
    (
      env.sign (claims_of made token_ttl "access" u),
      env.sign (claims_of made refresh_ttl "refresh" u),
      refl,
      verified,
      verified_of env "refresh" made now refresh_ttl u (readable.refresh from (omega arith)) role
          refl,
      λ fs.
          wrong_kind env now (env.sign (claims_of made token_ttl "access" u))
            (token_claims u "access") s fs verified refl,
    )
