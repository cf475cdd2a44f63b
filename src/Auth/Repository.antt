-- ===== src/Auth/Repository.antt =====
-- The methods of backend/internal/auth/repository.go, one action each. A query that finds no row is an
-- error, as is an insertion that breaks a unique key.
use study_mate.Prelude.{
  ℕ, suc, String, Bool, true, false, not, ◌&&◌, Option, none, some, List, [], ◌∷◌, ◌==◌, leb, find,
  any, select, update, str_eq, if◌then◌else◌,
}
use study_mate.Exec.{Result, ok, err, call}
use study_mate.Auth.Model.{
  User, EmailVerificationOtp, PasswordResetToken, Store, Error, database, Auth,
}

abbrev pub or_missing : {A : Type 0} → Option A → Result Error A
or_missing none = err database
or_missing (some a) = ok a

abbrev pub user_of_email : Store → String → Option User
user_of_email s email = find (λ u. str_eq u.email email) s.users

abbrev pub user_of_id : Store → ℕ → Option User
user_of_id s id = find (λ u. u.id == id) s.users

-- CreateUser
unfoldable pub create_user : User → Auth ℕ
create_user u = call database λ s.
    if any (λ x. str_eq x.email u.email) s.users then (err database, s) else (
      ok s.next_id,
      record s {
        users =
            record u {
              id = s.next_id;
              role = if str_eq u.role "" then "student" else u.role;
              status = if str_eq u.status "" then "active" else u.status;
            }
            ∷ s.users;
        next_id = suc s.next_id;
      },
    )

-- GetUserByEmail
unfoldable pub get_user_by_email : String → Auth User
get_user_by_email email = call database λ s. (or_missing (user_of_email s email), s)

-- GetUserByID
unfoldable pub get_user_by_id : ℕ → Auth User
get_user_by_id id = call database λ s. (or_missing (user_of_id s id), s)

abbrev updated_user : ℕ → (User → User) → Store → Result Error Unit × Store
updated_user id f s =
    if any (λ u. u.id == id) s.users
    then (ok tt, record s { users = update (λ u. u.id == id) f s.users })
    else (err database, s)

-- UpdateUserPassword
unfoldable pub update_user_password : ℕ → String → Auth Unit
update_user_password id hash =
    call database λ s. updated_user id (λ u. record u { password_hash = hash }) s

-- UpdateUserStatus
unfoldable pub update_user_status : ℕ → String → Auth Unit
update_user_status id status =
    call database λ s. updated_user id (λ u. record u { status = status }) s

-- UpdateUserEmailVerified
unfoldable pub update_user_email_verified : ℕ → Bool → Auth Unit
update_user_email_verified id verified =
    call database λ s. updated_user id (λ u. record u { email_verified = verified }) s

-- UpdateLastLogin
unfoldable pub update_last_login : ℕ → ℕ → Auth Unit
update_last_login id at =
    call database λ s. updated_user id (λ u. record u { last_login_at = some at }) s

-- CreatePasswordResetToken; token is unique
unfoldable pub create_password_reset_token : ℕ → String → ℕ → ℕ → Auth Unit
create_password_reset_token user_id token expires_at created_at = call database λ s.
    if any (λ t. str_eq t.token token) s.reset_tokens then (err database, s) else (
      ok tt,
      record s {
        reset_tokens =
            record {
              id = s.next_id;
              user_id = user_id;
              token = token;
              used = false;
              expires_at = expires_at;
              created_at = created_at;
            }
            ∷ s.reset_tokens;
        next_id = suc s.next_id;
      },
    )

abbrev pub reset_token_of : Store → String → Option PasswordResetToken
reset_token_of s token = find (λ t. str_eq t.token token) s.reset_tokens

-- GetPasswordResetToken
unfoldable pub get_password_reset_token : String → Auth PasswordResetToken
get_password_reset_token token = call database λ s. (or_missing (reset_token_of s token), s)

-- MarkPasswordResetTokenUsed
unfoldable pub mark_password_reset_token_used : String → Auth Unit
mark_password_reset_token_used token = call database λ s. (
  ok tt,
  record s {
    reset_tokens =
        update (λ t. str_eq t.token token) (λ t. record t { used = true }) s.reset_tokens;
  },
)

-- DeleteEmailOTPsForEmail, which DeleteEmailOTPsForEmailAfterUse calls too
unfoldable pub delete_email_otps_for_email : String → Auth Unit
delete_email_otps_for_email email =
    call database λ s. (ok tt, record s { otps = select (λ o. not (str_eq o.email email)) s.otps })

-- CreateEmailOTP
unfoldable pub create_email_otp : String → String → ℕ → ℕ → Auth Unit
create_email_otp email otp_hash expires_at created_at = call database λ s. (
  ok tt,
  record s {
    otps =
        record {
          id = s.next_id;
          email = email;
          otp_hash = otp_hash;
          attempts = 0;
          verified = false;
          verification_token = none;
          token_expires_at = none;
          expires_at = expires_at;
          created_at = created_at;
        }
        ∷ s.otps;
    next_id = suc s.next_id;
  },
)

abbrev pub later_created : EmailVerificationOtp → Option EmailVerificationOtp → EmailVerificationOtp
later_created o none = o
later_created o (some p) = if leb p.created_at o.created_at then o else p

-- ORDER BY created_at DESC LIMIT 1, among the rows that pass a test
unfoldable pub latest_otp :
    (EmailVerificationOtp → Bool) → List EmailVerificationOtp → Option EmailVerificationOtp
latest_otp test [] = none
latest_otp test (o ∷ rest) =
    let later = latest_otp test rest in if test o then some (later_created o later) else later

abbrev pub otp_of : Store → String → Option EmailVerificationOtp
otp_of s email = latest_otp (λ o. str_eq o.email email) s.otps

-- GetLatestEmailOTP
unfoldable pub get_latest_email_otp : String → Auth EmailVerificationOtp
get_latest_email_otp email = call database λ s. (or_missing (otp_of s email), s)

abbrev pub bump_attempts : EmailVerificationOtp → EmailVerificationOtp
bump_attempts o = record o { attempts = suc o.attempts }

-- IncrementEmailOTPAttempts
unfoldable pub increment_email_otp_attempts : ℕ → Auth Unit
increment_email_otp_attempts id =
    call database λ s. (ok tt, record s { otps = update (λ o. o.id == id) bump_attempts s.otps })

-- MarkEmailOTPVerified
unfoldable pub mark_email_otp_verified : ℕ → String → ℕ → Auth Unit
mark_email_otp_verified id token expires_at = call database λ s. (
  ok tt,
  record s {
    otps =
        update (λ o. o.id == id)
          (λ o. record o {
            verified = true;
            verification_token = some token;
            token_expires_at = some expires_at;
          })
          s.otps;
  },
)

abbrev pub has_text : String → Option String → Bool
has_text t none = false
has_text t (some u) = str_eq u t

abbrev pub verified_otp_of : Store → String → String → Option EmailVerificationOtp
verified_otp_of s email token =
    latest_otp (λ o. str_eq o.email email && has_text token o.verification_token && o.verified)
      s.otps

-- GetVerifiedEmailOTPByToken
unfoldable pub get_verified_email_otp_by_token : String → String → Auth EmailVerificationOtp
get_verified_email_otp_by_token email token =
    call database λ s. (or_missing (verified_otp_of s email token), s)

-- CreateUserProfile, with ON CONFLICT (user_id) DO UPDATE
unfoldable pub create_user_profile : ℕ → String → Auth Unit
create_user_profile user_id class_level = call database λ s. (
  ok tt,
  record s {
    profiles =
        if any (λ (p : ℕ × String). p.0 == user_id) s.profiles
        then update (λ (p : ℕ × String). p.0 == user_id) (λ p. (p.0, class_level)) s.profiles
        else (user_id, class_level) ∷ s.profiles;
  },
)
