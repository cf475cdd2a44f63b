-- ===== src/Auth.antt =====
-- backend/internal/auth: signup with a one-time code, login, tokens and passwords.
pub mod Model
pub mod Repository
pub mod Validation
pub mod Tokens
pub mod Registration
pub mod Passwords
pub mod Sessions
pub mod Guesses
pub mod Resets
pub mod Signup
