-- ===== src/Auth/Tokens.antt =====
-- The tokens of backend/internal/auth/service.go: VerifyToken, generateAccessToken and
-- generateRefreshToken, and RefreshToken and Login, which hand them out.
-- Of an error only its presence matters here; several texts of the source are one error.
use study_mate.Prelude.{ℕ, ◌+◌, String, Option, none, some, List, [], ◌∷◌, str_eq, if◌then◌else◌}
use study_mate.Exec.{Result, ok, err, pure, lift, call, guard, ◌>>=◌, ◌>>◌}
use study_mate.Auth.Model.{
  User, Claims, Env, Error, invalid_credentials, not_active, invalid_token, not_refresh_token,
  sign_failed, Auth, token_ttl, refresh_ttl,
}
use study_mate.Auth.Repository.{get_user_by_email, get_user_by_id, update_last_login}
use study_mate.Auth.Validation.{validate_email}

pub record TokenClaims : Type 0 where
  pub user_id : ℕ
  pub email : String
  pub role : String
  pub claim_type : String

pub record UserInfo : Type 0 where
  pub id : ℕ
  pub name : String
  pub email : String
  pub role : String

pub record TokenResponse : Type 0 where
  pub access_token : String
  pub refresh_token : Option String
  pub expires_in : ℕ
  pub user : UserInfo

abbrev pub info_of : User → UserInfo
info_of u = record { id = u.id; name = u.name; email = u.email; role = u.role }

unfoldable pub claims_of : ℕ → ℕ → String → User → Claims
claims_of now ttl kind u = record {
  subject = some u.id;
  audience = kind ∷ u.role ∷ [];
  expires_at = now + ttl;
  issued_at = now;
  not_before = now;
  email = u.email;
  role = u.role;
  claim_type = kind;
}

-- generateAccessToken; signing may fail
unfoldable pub generate_access_token : Env → ℕ → User → Auth String
unfolding claims_of
generate_access_token env now u =
    call sign_failed λ s. (ok (env.sign (claims_of now token_ttl "access" u)), s)

-- generateRefreshToken
unfoldable pub generate_refresh_token : Env → ℕ → User → Auth String
unfolding claims_of
generate_refresh_token env now u =
    call sign_failed λ s. (ok (env.sign (claims_of now refresh_ttl "refresh" u)), s)

abbrev pub first_or : String → List String → String
first_or t [] = t
first_or t (a ∷ rest) = a

abbrev claims_with : Claims → Option ℕ → Result Error TokenClaims
claims_with c none = err invalid_token
claims_with c (some id) = ok (record {
  user_id = id;
  email = c.email;
  role = if str_eq c.role "" then "student" else c.role;
  claim_type = if str_eq c.claim_type "" then first_or c.claim_type c.audience else c.claim_type;
})

abbrev checked_claims : Option Claims → Result Error TokenClaims
checked_claims none = err invalid_token
checked_claims (some c) = claims_with c c.subject

-- VerifyToken
unfoldable pub verify_token : Env → ℕ → String → Result Error TokenClaims
verify_token env now token = checked_claims (env.parse now token)

-- RefreshToken
unfoldable pub refresh_token : Env → ℕ → String → Auth TokenResponse
unfolding verify_token generate_access_token
refresh_token env now token = do
  claims ← lift (verify_token env now token)
  guard (str_eq claims.claim_type "refresh") not_refresh_token
  u ← get_user_by_id claims.user_id
  access ← generate_access_token env now u
  pure (record {
    access_token = access;
    refresh_token = none;
    expires_in = token_ttl;
    user = info_of u;
  })

-- both tokens
unfoldable pub token_response : Env → ℕ → User → Auth TokenResponse
unfolding generate_access_token generate_refresh_token
token_response env now u = do
  access ← generate_access_token env now u
  refresh ← generate_refresh_token env now u
  pure (record {
    access_token = access;
    refresh_token = some refresh;
    expires_in = token_ttl;
    user = info_of u;
  })

-- Login
unfoldable pub login : Env → ℕ → String → String → Auth TokenResponse
unfolding token_response
login env now email password = do
  e ← lift (validate_email env email)
  u ← get_user_by_email e
  guard (env.verify_password u.password_hash password) invalid_credentials
  guard (str_eq u.status "active") not_active
  update_last_login u.id now
  token_response env now u
