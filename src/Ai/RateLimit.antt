-- ===== src/Ai/RateLimit.antt =====
-- backend/internal/quiz/ai/ratelimit.go: the cap on a user's calls of the language model. The times of
-- the granted calls are kept per user, the oldest first; a user without calls has the empty list.
pub mod Spaced
use study_mate.Prelude.{
  ℕ, ◌+◌, ◌*◌, Bool, true, false, List, [], ◌∷◌, ◌++◌, ◌==◌, length, select, ltb, leb,
  if◌then◌else◌,
}

pub record RateLimiter : Type 0 where
  pub window : ℕ
  pub max_calls : ℕ

abbrev or_default : ℕ → ℕ → ℕ
or_default n d = if n == 0 then d else n

-- NewRateLimiter
unfoldable pub new_rate_limiter : ℕ → ℕ → RateLimiter
new_rate_limiter max_calls window = record {
  window = or_default window 60;
  max_calls = or_default max_calls 10;
}

abbrev pub Calls : Type 0
Calls = ℕ → List ℕ

abbrev pub no_calls : Calls
no_calls user = []

abbrev set_calls : Calls → ℕ → List ℕ → Calls
set_calls calls user times other = if other == user then times else calls other

-- a call that is younger than the window
abbrev pub is_recent : ℕ → ℕ → ℕ → Bool
is_recent window now t = ltb now (t + window)

-- Allow
unfoldable pub allow : RateLimiter → ℕ → ℕ → Calls → Bool × Calls
allow limiter now user calls =
    let recent = select (is_recent limiter.window now) (calls user) in
    if leb limiter.max_calls (length recent)
    then (false, set_calls calls user recent)
    else (true, set_calls calls user (recent ++ (now ∷ [])))
