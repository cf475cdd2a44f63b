-- ===== src/Auth/Registration.antt =====
-- SendRegistrationOTP, VerifyRegistrationOTP and Register (backend/internal/auth/service.go), and the
-- codes of otp.go. Random numbers and tokens are arguments; drawing them may fail.
use Prim.Native.Char.{Char}
use Prim.Native.String.{len}
use study_mate.Prelude.{
  ℕ, ◌+◌, ◌/◌, ◌%◌, String, Bool, true, false, not, ◌&&◌, ◌||◌, Option, none, some, List, [], ◌∷◌,
  ◌==◌, ltb, leb, str_eq, trim_space, to_lower, is_blank, get_elem?, if◌then◌else◌,
}
use study_mate.Exec.{Result, ok, err, pure, raise, lift, call, attempt, guard, ◌>>=◌, ◌>>◌}
use study_mate.Auth.Model.{
  User, EmailVerificationOtp, Message, registration_otp, registration_welcome, Env, Error, Auth,
  passwords_differ, terms_required, verification_required, email_registered, notifier_missing,
  invalid_code, code_used, code_expired, too_many_attempts, verification_expired, random_failed,
  hash_failed, delivery, otp_ttl, verification_ttl, max_otp_attempts,
}
use study_mate.Auth.Repository.{
  get_user_by_email, delete_email_otps_for_email, create_email_otp, get_latest_email_otp,
  increment_email_otp_attempts, mark_email_otp_verified, get_verified_email_otp_by_token,
  create_user, create_user_profile,
}
use study_mate.Auth.Validation.{
  validate_email, validate_class, validate_mobile, validate_password, sanitize_user_input,
}
use study_mate.Auth.Tokens.{TokenResponse, token_response}

digits : List Char
digits = "0" ∷ "1" ∷ "2" ∷ "3" ∷ "4" ∷ "5" ∷ "6" ∷ "7" ∷ "8" ∷ "9" ∷ []

abbrev char_or_zero : Option Char → Char
char_or_zero none = "0"
char_or_zero (some c) = c

digit : ℕ → Char
unfolding digits
digit n = char_or_zero (get_elem? digits (n % 10))

-- GenerateNumericOTP: %06d of the random number modulo a million
unfoldable pub generate_numeric_otp : ℕ → String
unfolding digit
generate_numeric_otp random =
    let n = random % 1000000 in
    String.◌∷◌ (digit (n / 100000)) (
      String.◌∷◌ (digit (n / 10000)) (
        String.◌∷◌ (digit (n / 1000))
          (String.◌∷◌ (digit (n / 100)) (String.◌∷◌ (digit (n / 10)) (String.◌∷◌ (digit n) "")))))

abbrev pub otp_digits : ℕ
otp_digits = 6

-- crypto/rand
unfoldable pub drawn : String → Auth String
drawn text = call random_failed λ s. (ok text, s)

unfoldable pub deliver : Message → Auth Unit
deliver m = call delivery λ s. (ok tt, record s { outbox = m ∷ s.outbox })

-- isRealEmailProvider
unfoldable pub is_real_email_provider : Env → Bool
is_real_email_provider env =
    let p = to_lower (trim_space env.email_provider) in
    str_eq p "resend" || str_eq p "ses" || str_eq p "smtp"

-- isDevelopmentEnv
unfoldable pub is_development_env : Env → Bool
is_development_env env =
    let e = to_lower (trim_space env.environment) in str_eq e "" || str_eq e "development"

abbrev pub found : {A : Type 0} → Result Error A → Bool
found (ok a) = true
found (err e) = false

-- a lookup that fails for another reason counts as no user
unfoldable pub check_unused : String → Auth Unit
check_unused email = do
  existing ← attempt (get_user_by_email email)
  guard (not (found existing)) email_registered

-- SendRegistrationOTP; the answer shows the code in development only
unfoldable pub send_registration_otp : Env → ℕ → ℕ → String → Auth (Option String)
unfolding drawn deliver check_unused is_real_email_provider is_development_env
send_registration_otp env now random email = do
  e ← lift (validate_email env email)
  check_unused e
  guard env.has_notifier notifier_missing
  otp ← drawn (generate_numeric_otp random)
  delete_email_otps_for_email e
  create_email_otp e (env.hash_otp otp) (now + otp_ttl) now
  deliver (registration_otp e otp 10)
  pure (if is_development_env env && not (is_real_email_provider env) then some otp else none)

-- the checks of VerifyRegistrationOTP on the stored code
unfoldable pub check_otp : ℕ → EmailVerificationOtp → Result Error Unit
check_otp now o =
    if o.verified
    then err code_used
    else if ltb o.expires_at now
    then err code_expired
    else if leb max_otp_attempts o.attempts
    then err too_many_attempts
    else ok tt

-- a wrong code is counted; whether the count could be stored is not looked at
unfoldable pub refuse_code : EmailVerificationOtp → Auth String
refuse_code o = do counted ← attempt (increment_email_otp_attempts o.id); raise invalid_code

unfoldable pub accept_code : ℕ → String → EmailVerificationOtp → Auth String
unfolding drawn
accept_code now token o = do
  t ← drawn token
  mark_email_otp_verified o.id t (now + verification_ttl)
  pure t

-- VerifyRegistrationOTP
unfoldable pub verify_registration_otp : Env → ℕ → String → String → String → Auth String
unfolding check_otp refuse_code accept_code
verify_registration_otp env now token email code = do
  e ← lift (validate_email env email)
  let otp = trim_space code
  guard (len otp == otp_digits) invalid_code
  o ← get_latest_email_otp e
  lift (check_otp now o)
  if not (str_eq (env.hash_otp otp) o.otp_hash) then refuse_code o else accept_code now token o

pub record RegisterRequest : Type 0 where
  pub verification_token : String
  pub name : String
  pub email : String
  pub student_class : String
  pub mobile : String
  pub password : String
  pub password_confirm : String
  pub accept_terms : Bool

-- the fields of a request that passes the checks before the first query
pub record Validated : Type 0 where
  pub email : String
  pub name : String
  pub class_level : String
  pub mobile : String

abbrev pub then_ok : {A B : Type 0} → Result Error A → (A → Result Error B) → Result Error B
then_ok (ok a) f = f a
then_ok (err e) f = err e

unfoldable pub validate_request : Env → RegisterRequest → Result Error Validated
validate_request env r =
    if is_blank r.verification_token
    then err verification_required
    else then_ok (validate_email env r.email) λ email.
      then_ok (validate_class r.student_class) λ class_level.
        then_ok (validate_mobile r.mobile) λ mobile.
          if not (str_eq r.password r.password_confirm)
          then err passwords_differ
          else then_ok (validate_password env r.password) λ u.
            if not r.accept_terms
            then err terms_required
            else ok (record {
              email = email;
              name = sanitize_user_input r.name;
              class_level = class_level;
              mobile = mobile;
            })

abbrev pub is_live_until : ℕ → Option ℕ → Bool
is_live_until now none = false
is_live_until now (some t) = not (ltb t now)

unfoldable pub hashed : Env → String → String → Auth String
hashed env salt password = call hash_failed λ s. (ok (env.hash_password salt password), s)

unfoldable pub new_user : Validated → String → User
new_user v hash = record {
  id = 0;
  name = v.name;
  email = v.email;
  phone = some v.mobile;
  password_hash = hash;
  role = "student";
  status = "active";
  email_verified = true;
  last_login_at = none;
}

unfoldable pub welcomed : Env → Message → Auth (Result Error Unit)
welcomed env m = if env.has_notifier then attempt (deliver m) else pure (ok tt)

-- the part of Register after the user's row is there
unfoldable pub finish_signup : Env → ℕ → Validated → User → Auth TokenResponse
unfolding welcomed deliver
finish_signup env now v u = do
  create_user_profile u.id v.class_level
  cleaned ← attempt (delete_email_otps_for_email v.email)
  told ← welcomed env (registration_welcome u.id u.name u.email v.class_level)
  token_response env now u

-- the part of Register before it, with the digest of the password
unfoldable pub checked_signup : Env → ℕ → String → RegisterRequest → Auth (Validated × String)
unfolding validate_request hashed check_unused
checked_signup env now salt r = do
  v ← lift (validate_request env r)
  o ← get_verified_email_otp_by_token v.email r.verification_token
  guard (is_live_until now o.token_expires_at) verification_expired
  check_unused v.email
  hash ← hashed env salt r.password
  pure (v, hash)

unfoldable pub add_student : Env → ℕ → Validated × String → Auth TokenResponse
unfolding new_user finish_signup
add_student env now (v, hash) = do
  id ← create_user (new_user v hash)
  finish_signup env now v (record (new_user v hash) { id = id })

-- Register
unfoldable pub register : Env → ℕ → String → RegisterRequest → Auth TokenResponse
unfolding checked_signup add_student
register env now salt r = checked_signup env now salt r >>= add_student env now
