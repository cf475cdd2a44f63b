-- ===== src/Middleware/RateLimit.antt =====
-- The rate limiter in front of the handlers (backend/internal/common/middleware/ratelimit.go).
pub mod Windows
use study_mate.Prelude.{
  ℕ, zero, suc, ◌+◌, ◌-◌, String, Bool, true, false, not, ◌&&◌, Option, none, some, List, [], ◌∷◌,
  ◌==◌, ltb, str_eq, find, select, update, if◌then◌else◌,
}
use study_mate.Exec.{Result, ok, err, Act, call, pure, attempt, ◌>>=◌}

-- a key of Valkey that holds a count; a key without a time of expiry stays
pub record Counter : Type 0 where
  pub key : String
  pub count : ℕ
  pub expires_at : Option ℕ

pub data Error : Type 0 where
  valkey : Error

abbrev pub Limited : Type 0 → Type 0
Limited A = Act (List Counter) Error A

-- what the client gets: the handler's answer with the limit and what remains, where they are known, or
-- 429 with the seconds to wait
pub data Reply : Type 0 where
  served : Option (ℕ × ℕ) → Reply
  refused : ℕ → Reply

abbrev pub is_live : ℕ → Option ℕ → Bool
is_live now none = true
is_live now (some t) = ltb now t

abbrev pub is_counter : ℕ → String → Counter → Bool
is_counter now key c = str_eq c.key key && is_live now c.expires_at

-- INCR
abbrev pub next_counter : String → Option Counter → Counter
next_counter key none = record { key = key; count = 1; expires_at = none }
next_counter key (some c) = record c { count = suc c.count }

unfoldable pub incr : ℕ → String → Limited ℕ
incr now key = call valkey λ s.
    let c = next_counter key (find (is_counter now key) s) in
    (ok c.count, c ∷ select (λ d. not (str_eq d.key key)) s)

-- EXPIRE
unfoldable pub expire : ℕ → ℕ → String → Limited Unit
expire now window key =
    call valkey λ s.
      (ok tt, update (is_counter now key) (λ c. record c { expires_at = some (now + window) }) s)

-- TTL, which is not positive for a key without a time of expiry
abbrev pub time_left : ℕ → Option Counter → ℕ
time_left now none = 0
time_left now (some c) = left c.expires_at
  where
    left : Option ℕ → ℕ
    left none = 0
    left (some t) = t - now

unfoldable pub ttl : ℕ → String → Limited ℕ
ttl now key = call valkey λ s. (ok (time_left now (find (is_counter now key) s)), s)

abbrev pub retry_after : ℕ → Result Error ℕ → ℕ
retry_after window (err e) = window
retry_after window (ok n) = if n == 0 then window else n

-- what follows the count; the error of EXPIRE is dropped
unfoldable pub count_checked : ℕ → ℕ → ℕ → String → Result Error ℕ → Limited Reply
unfolding expire ttl
count_checked now most window key (err e) = pure (served none)
count_checked now most window key (ok n) = do
  expiring ← if n == 1 then attempt (expire now window key) else pure (ok tt)
  if ltb most n
      then (do left ← attempt (ttl now key); pure (refused (retry_after window left)))
      else pure (served (some (most, most - n)))

-- limit: a request without a key is served
unfoldable pub limit : ℕ → ℕ → ℕ → String → Limited Reply
unfolding incr count_checked
limit now most window key =
    if str_eq key ""
    then pure (served none)
    else (do counted ← attempt (incr now key); count_checked now most window key counted)
