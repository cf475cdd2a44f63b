-- ===== src/Billing/Limiter.antt =====
-- backend/internal/billing/limiter.go: the daily scan quota, on counters in Valkey. The key
-- `scans:<user>:<date>` is the pair of the user and the date.
use study_mate.Prelude.{
  ℕ, suc, Bool, true, not, ◌&&◌, Option, none, some, List, [], ◌∷◌, ◌==◌, ltb, leb, find,
  if◌then◌else◌,
}
use study_mate.Prelude.Integer.{ℤ, is_negative, is_positive, to_nat}
use study_mate.Exec.{ok, pure, call, guard, ◌>>=◌}
use study_mate.Billing.Model.{
  Counter, Env, database, scan_limit_exceeded, free_scans_per_day, Billing,
}
use study_mate.Billing.Repository.{get_entitlements}

abbrev pub is_counter : ℕ → ℕ → Counter → Bool
is_counter user_id day c = c.user_id == user_id && c.day == day

-- a key past its expiry is gone
abbrev pub live_count : ℕ → Option Counter → Option ℕ
live_count now none = none
live_count now (some c) = if ltb now c.expires then some c.count else none

-- GET key
unfoldable pub read_counter : ℕ → ℕ → ℕ → List Counter → Option ℕ
read_counter now user_id day cs = live_count now (find (is_counter user_id day) cs)

abbrev pub count_from : Option ℕ → ℕ
count_from none = 0
count_from (some n) = n

-- INCR key, then EXPIREAT key, in one pipeline
unfoldable pub bumped : ℕ → ℕ → ℕ → ℕ → List Counter → List Counter
bumped now user_id day expires [] =
    record { user_id = user_id; day = day; count = 1; expires = expires } ∷ []
bumped now user_id day expires (c ∷ rest) =
    if is_counter user_id day c
    then record c { count = suc (count_from (live_count now (some c))); expires = expires } ∷ rest
    else c ∷ bumped now user_id day expires rest

-- `limit := ent.ScansPerDay; if limit <= 0 { limit = FreeScansPerDay }`
unfoldable pub daily_limit : ℤ → ℕ
daily_limit n = if is_positive n then to_nat n else free_scans_per_day

abbrev pub below_limit : ℕ → Option ℕ → Bool
below_limit limit none = true
below_limit limit (some count) = not (leb limit count)

-- CheckScanLimit
unfoldable pub check_scan_limit : Env → ℕ → ℕ → Billing Unit
unfolding read_counter daily_limit
check_scan_limit env now user_id = do
  ent ← get_entitlements now user_id
  if is_negative ent.scans_per_day then pure tt else if not env.has_cache then pure tt else do
    count ← call database λ s. (ok (read_counter now user_id (env.day_of now) s.counters), s)
    guard (below_limit (daily_limit ent.scans_per_day) count) scan_limit_exceeded

-- RecordScan
unfoldable pub record_scan : Env → ℕ → ℕ → Billing Unit
unfolding bumped
record_scan env now user_id =
    if not env.has_cache
    then pure tt
    else call database λ s. (
      ok tt,
      record s { counters = bumped now user_id (env.day_of now) (env.end_of_day now) s.counters },
    )
