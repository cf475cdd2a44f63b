-- ===== src/Auth/Passwords.antt =====
-- ChangePassword, InitiatePasswordReset and ResetPassword (backend/internal/auth/service.go).
use study_mate.Prelude.{ℕ, ◌+◌, ◌*◌, String, not, ◌||◌, ltb, str_eq}
use study_mate.Exec.{Result, ok, err, pure, lift, attempt, guard, ◌>>=◌, ◌>>◌}
use study_mate.Auth.Model.{
  User, Env, Error, Auth, password_reset, passwords_differ, wrong_password, reset_expired,
  mailer_missing,
}
use study_mate.Auth.Repository.{
  get_user_by_email, get_user_by_id, update_user_password, create_password_reset_token,
  get_password_reset_token, mark_password_reset_token_used,
}
use study_mate.Auth.Validation.{validate_email, validate_password}
use study_mate.Auth.Registration.{drawn, deliver, hashed}

-- ChangePassword
unfoldable pub change_password : Env → String → ℕ → String → String → String → Auth Unit
change_password env salt user_id current new_password confirm = do
  guard (str_eq new_password confirm) passwords_differ
  lift (validate_password env new_password)
  u ← get_user_by_id user_id
  guard (env.verify_password u.password_hash current) wrong_password
  hash ← hashed env salt new_password
  update_user_password user_id hash

-- the part of InitiatePasswordReset for a known user
unfoldable pub send_reset : Env → ℕ → String → User → Auth Unit
send_reset env now token u = do
  t ← drawn token
  create_password_reset_token u.id t (now + 30 * 60) now
  guard env.has_mailer mailer_missing
  deliver (password_reset u.id t)

send_reset_if : Env → ℕ → String → Result Error User → Auth Unit
unfolding send_reset
send_reset_if env now token (err e) = pure tt
send_reset_if env now token (ok u) = send_reset env now token u

initiate_for : Env → ℕ → String → Result Error String → Auth Unit
unfolding send_reset_if
initiate_for env now token (err e) = pure tt
initiate_for env now token (ok email) = do
  found ← attempt (get_user_by_email email)
  send_reset_if env now token found

-- InitiatePasswordReset: an unknown address is no error
unfoldable pub initiate_password_reset : Env → ℕ → String → String → Auth Unit
unfolding initiate_for
initiate_password_reset env now token email = initiate_for env now token (validate_email env email)

-- ResetPassword
unfoldable pub reset_password : Env → ℕ → String → String → String → String → Auth Unit
reset_password env now salt token new_password confirm = do
  guard (str_eq new_password confirm) passwords_differ
  lift (validate_password env new_password)
  t ← get_password_reset_token token
  guard (not (t.used || ltb t.expires_at now)) reset_expired
  hash ← hashed env salt new_password
  update_user_password t.user_id hash
  mark_password_reset_token_used token
