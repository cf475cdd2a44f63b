-- ===== src/Tests/Auth.antt =====
-- One student with a code, a reset token and the tokens of a login.
use Prim.Native.Char.{code}
use study_mate.Prelude.{
  map, is_blank, ℕ, ◌≡◌, ◌&&◌, refl, String, Bool, true, false, none, some, List, [], ◌∷◌, leb,
  arith, str_eq, to_lower, trim_space, has_prefix, if◌then◌else◌,
}
use study_mate.Exec.{ok, IsError, call}
use study_mate.Auth.Model.{
  User, EmailVerificationOtp, PasswordResetToken, Env, Store, token_ttl, refresh_ttl,
}
use study_mate.Auth.Repository.{
  get_verified_email_otp_by_token, create_user, create_user_profile, delete_email_otps_for_email,
  get_user_by_email, update_last_login, latest_otp,
}
use study_mate.Auth.Validation.{validate_email, validate_password, validate_class, validate_mobile}
use study_mate.Auth.Tokens.{
  generate_access_token, generate_refresh_token, claims_of, verify_token, token_response,
  refresh_token, login, info_of,
}
use study_mate.Auth.Registration.{
  register, RegisterRequest, verify_registration_otp, generate_numeric_otp,
}
use study_mate.Auth.Sessions.{
  IsAllowed, IsReadable, login-IsAllowed, refresh_suspended, verify_token-token_response,
  token_claims,
}
use study_mate.Auth.Guesses.{Guess, guesses, guess_limit}
use study_mate.Auth.Resets.{Request, IsGood, reset, reset_once, with_used, with_hash}
use study_mate.Auth.Signup.{Registered, register-Registered}

abbrev ann : String → User
ann status = record {
  id = 7;
  name = "Ann";
  email = "ann@school.in";
  phone = none;
  password_hash = "Old4pass";
  role = "student";
  status = status;
  email_verified = true;
  last_login_at = none;
}

abbrev code_of_ann : EmailVerificationOtp
code_of_ann = record {
  id = 1;
  email = "ann@school.in";
  otp_hash = "123456";
  attempts = 0;
  verified = false;
  verification_token = none;
  token_expires_at = none;
  expires_at = 900;
  created_at = 300;
}

abbrev reset_of_ann : PasswordResetToken
reset_of_ann = record {
  id = 2;
  user_id = 7;
  token = "r1";
  used = false;
  expires_at = 900;
  created_at = 300;
}

abbrev school : String → Store
school status = record {
  users = ann status ∷ [];
  otps = code_of_ann ∷ [];
  reset_tokens = reset_of_ann ∷ [];
  profiles = [];
  outbox = [];
  next_id = 8;
}

-- plain digests, and a JWT library that knows the tokens of one login
abbrev env : Env
env = record {
  hash_otp = λ t. t;
  hash_password = λ salt t. t;
  verify_password = λ h t. str_eq h t;
  sign = λ c. c.claim_type;
  parse = λ now t.
      if str_eq t "access"
      then some (claims_of 300 token_ttl "access" (ann "active"))
      else some (claims_of 300 refresh_ttl "refresh" (ann "active"));
  is_address = λ t. true;
  to_lower = λ t. to_lower t;
  is_upper = λ c. leb 65 (code c) && leb (code c) 90;
  is_lower = λ c. leb 97 (code c) && leb (code c) 122;
  is_digit = λ c. leb 48 (code c) && leb (code c) 57;
  has_notifier = true;
  has_mailer = true;
  environment = "production";
  email_provider = "ses";
}

otp_padded : generate_numeric_otp 5000042 ≡ "000042"
unfolding generate_numeric_otp
otp_padded = refl

mobile_plain : validate_mobile " +91 98765-43210 " ≡ ok "9876543210"
unfolding validate_mobile has_prefix trim_space
mobile_plain = refl

class_cut : validate_class "  10th  " ≡ ok "10th"
unfolding validate_class trim_space
class_cut = refl

address : validate_email env " Ann@School.in " ≡ ok "ann@school.in"
unfolding validate_email to_lower trim_space
address = refl

login-IsAllowed_example : IsAllowed env (school "active") " Ann@School.in " "Old4pass"
unfolding login validate_email token_response to_lower trim_space get_user_by_email call
    update_last_login generate_access_token generate_refresh_token
login-IsAllowed_example =
    login-IsAllowed env 300 " Ann@School.in " "Old4pass"
      (record { store = school "active"; faults = [] }) tt

refresh_suspended_example :
    ((fs : List Bool)
      → IsError
          (login env 400 " Ann@School.in " "Old4pass"
            (record { store = school "suspended"; faults = fs })).0)
    × (refresh_token env 400 "refresh" (record { store = school "suspended"; faults = [] }) ≡ (
      ok (record {
        access_token = "access";
        refresh_token = none;
        expires_in = token_ttl;
        user = info_of (ann "suspended");
      }),
      record { store = school "suspended"; faults = [] },
    ))
unfolding verify_token claims_of
refresh_suspended_example =
    refresh_suspended env 400 " Ann@School.in " "Old4pass" "refresh" "ann@school.in"
      (school "suspended") (ann "suspended") (token_claims (ann "suspended") "refresh") address refl
      refl refl refl refl

readable : IsReadable env 300 400 (ann "active")
unfolding claims_of
readable = record { access = λ h k. refl; refresh = λ h k. refl }

verify_token-token_response_example :
    (access : String) × (refresh : String) × (token_response env 300
        (ann "active")
        (record { store = school "active"; faults = [] })
      ≡ (
        ok (record {
          access_token = access;
          refresh_token = some refresh;
          expires_in = token_ttl;
          user = info_of (ann "active");
        }),
        record { store = school "active"; faults = [] },
      ))
    × (verify_token env 400 access ≡ ok (token_claims (ann "active") "access"))
    × (verify_token env 400 refresh ≡ ok (token_claims (ann "active") "refresh"))
    × ((fs : List Bool)
        → IsError
            (refresh_token env 400 access (record { store = school "active"; faults = fs })).0)
verify_token-token_response_example =
    verify_token-token_response env 300 400 (ann "active") (school "active") readable (omega arith)
      (omega arith) refl

abbrev wrong : ℕ → String → Guess
wrong now code = record { now = now; token = "t"; code = code }

abbrev wrongs : List Guess
wrongs =
    wrong 301 "000000"
    ∷ wrong 302 "000001"
    ∷ wrong 303 "000002"
    ∷ wrong 304 "000003"
    ∷ wrong 305 "000004"
    ∷ []

guess_limit_example :
    (t : Store) × ((guesses env " Ann@School.in " wrongs
        (record { store = school "active"; faults = [] })).1
      ≡ record { store = t; faults = [] })
    × ((g : Guess) (fs : List Bool)
        → let r =
            verify_registration_otp env g.now g.token " Ann@School.in " g.code
              (record { store = t; faults = fs }) in
          IsError r.0 × (r.1.store ≡ t))
unfolding latest_otp trim_space
guess_limit_example =
    guess_limit env " Ann@School.in " "ann@school.in" code_of_ann wrongs (school "active") address
      refl refl
      (
        record { six = refl; wrong = refl; early = refl },
        (
          record { six = refl; wrong = refl; early = refl },
          (
            record { six = refl; wrong = refl; early = refl },
            (
              record { six = refl; wrong = refl; early = refl },
              (record { six = refl; wrong = refl; early = refl }, tt),
            ),
          ),
        ),
      )
      (omega arith)

abbrev renewal : Request
renewal = record { now = 400; salt = "s"; new_password = "New4pass"; confirm = "New4pass" }

good : IsGood env reset_of_ann renewal
unfolding validate_password to_lower
good = record { same = refl; strong = refl; early = refl }

reset_once_example :
    let after = with_used "r1" (with_hash 7 "New4pass" (school "active")) in
    (reset env "r1" renewal (record { store = school "active"; faults = [] })
      ≡ (ok tt, record { store = after; faults = [] }))
    × ((again : Request) (fs : List Bool)
        → IsError (reset env "r1" again (record { store = after; faults = fs })).0
          × ((reset env "r1" again (record { store = after; faults = fs })).1.store ≡ after))
reset_once_example = reset_once env "r1" renewal (school "active") reset_of_ann refl refl refl good

abbrev ben : RegisterRequest
ben = record {
  verification_token = "v";
  name = "Ben";
  email = "ben@school.in";
  student_class = "9";
  mobile = "9876543210";
  password = "Good4pass";
  password_confirm = "Good4pass";
  accept_terms = true;
}

abbrev code_of_ben : EmailVerificationOtp
code_of_ben = record code_of_ann {
  id = 3;
  email = "ben@school.in";
  verified = true;
  verification_token = some "v";
  token_expires_at = some 900;
}

abbrev signup_desk : Store
signup_desk = record (school "active") { otps = code_of_ben ∷ code_of_ann ∷ [] }

register-Registered_example :
    Registered env 400 "s" ben signup_desk
      (register env 400 "s" ben (record { store = signup_desk; faults = [] }))
register-Registered_example =
    register-Registered env 400 "s" ben (record { store = signup_desk; faults = [] })

-- this run adds a student
signed_up :
    map
      (λ (u : User). u.email)
      (register env 400 "s" ben (record { store = signup_desk; faults = [] })).1.store.users
    ≡ "ben@school.in" ∷ "ann@school.in" ∷ []
unfolding register is_blank validate_email to_lower validate_class validate_mobile has_prefix
    validate_password get_verified_email_otp_by_token call latest_otp get_user_by_email create_user
    create_user_profile token_response delete_email_otps_for_email
signed_up = refl
