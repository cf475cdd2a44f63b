-- ===== src/Auth/Model.antt =====
-- The tables and payloads of backend/internal/auth/model.go. Instants are seconds.
use study_mate.Prelude.{ℕ, ◌*◌, String, Bool, Option, List}
use Prim.Native.Char.{Char}
use study_mate.Exec.{Act}

pub record User : Type 0 where
  pub id : ℕ
  pub name : String
  pub email : String
  pub phone : Option String
  pub password_hash : String
  pub role : String
  pub status : String
  pub email_verified : Bool
  pub last_login_at : Option ℕ

pub record EmailVerificationOtp : Type 0 where
  pub id : ℕ
  pub email : String
  pub otp_hash : String
  pub attempts : ℕ
  pub verified : Bool
  pub verification_token : Option String
  pub token_expires_at : Option ℕ
  pub expires_at : ℕ
  pub created_at : ℕ

pub record PasswordResetToken : Type 0 where
  pub id : ℕ
  pub user_id : ℕ
  pub token : String
  pub used : Bool
  pub expires_at : ℕ
  pub created_at : ℕ

-- what the notifier and the mailer are given
pub data Message : Type 0 where
  registration_otp : String → String → ℕ → Message
  registration_welcome : ℕ → String → String → String → Message
  password_reset : ℕ → String → Message

pub record Store : Type 0 where
  pub users : List User
  pub otps : List EmailVerificationOtp
  pub reset_tokens : List PasswordResetToken
  pub profiles : List (ℕ × String)
  pub outbox : List Message
  pub next_id : ℕ

pub data Error : Type 0 where
  password_too_short password_too_long password_complexity password_too_common : Error
  email_invalid email_too_long mobile_invalid class_required : Error
  passwords_differ terms_required verification_required : Error
  email_registered notifier_missing mailer_missing : Error
  invalid_code code_used code_expired too_many_attempts : Error
  invalid_verification verification_expired : Error
  invalid_credentials not_active invalid_token not_refresh_token user_not_found : Error
  reset_expired wrong_password : Error
  database random_failed hash_failed sign_failed delivery : Error

abbrev pub Auth : Type 0 → Type 0
Auth A = Act Store Error A

-- jwtClaims; the subject is the number that strconv.ParseInt finds in it
pub record Claims : Type 0 where
  pub subject : Option ℕ
  pub audience : List String
  pub expires_at : ℕ
  pub issued_at : ℕ
  pub not_before : ℕ
  pub email : String
  pub role : String
  pub claim_type : String

-- what comes from outside: the digest of HashOTP, bcrypt, the JWT library with the service's secret,
-- net/mail's test of an address, the case tables of package unicode, and the configuration
pub record Env : Type 0 where
  pub hash_otp : String → String
  pub hash_password : String → String → String  -- with a salt
  pub verify_password : String → String → Bool
  pub sign : Claims → String
  pub parse : ℕ → String → Option Claims  -- at an instant
  pub is_address : String → Bool
  pub to_lower : String → String
  pub is_upper : Char → Bool
  pub is_lower : Char → Bool
  pub is_digit : Char → Bool
  pub has_notifier : Bool
  pub has_mailer : Bool
  pub environment : String
  pub email_provider : String

-- tokenTTL, refreshTTL, otpTTL and verificationTTL
abbrev pub token_ttl : ℕ
token_ttl = 15 * 60

abbrev pub refresh_ttl : ℕ
refresh_ttl = 7 * 24 * 3600

abbrev pub otp_ttl : ℕ
otp_ttl = 10 * 60

abbrev pub verification_ttl : ℕ
verification_ttl = 30 * 60

abbrev pub max_otp_attempts : ℕ
max_otp_attempts = 5
