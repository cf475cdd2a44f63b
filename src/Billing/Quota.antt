-- ===== src/Billing/Quota.antt =====
-- The daily scan quota: what CheckScanLimit answers after a number of recorded scans.
use study_mate.Prelude.{
  ℕ, suc, ◌+◌, ◌≡◌, refl, ◌≢◌, ◌⊎◌, ◌<◌, true, false, none, some, Option, List, [], ◌∷◌, length,
  All, ltb, ap, ◌∙◌, find, arith, if◌then◌else◌,
}
use mathlib.Core.Path.{subst}
use study_mate.Prelude.Integer.{ℤ, is_negative}
use study_mate.Exec.{ok, err, World, call, guard}
use study_mate.Billing.Model.{Counter, Store, Env, Error, scan_limit_exceeded}
use study_mate.Billing.Repository.{get_entitlements, entitlements}
use study_mate.Billing.Limiter.{
  read_counter, count_from, bumped, daily_limit, check_scan_limit, record_scan, is_counter,
  below_limit,
}

module _ (user_id day expires : ℕ) where
  count-bumped :
      (t now : ℕ) (cs : List Counter)
      → now < expires
      → count_from (read_counter now user_id day (bumped t user_id day expires cs))
        ≡ suc (count_from (read_counter t user_id day cs))
  unfolding read_counter bumped
  count-bumped t now [] h = ground arith
  count-bumped t now (c ∷ cs) h = ground (arith, count-bumped t now cs h)

  -- Recording a scan changes the counter of its own user and date only.
  pub other-bumped :
      (t now other date : ℕ) (cs : List Counter)
      → (other ≢ user_id) ⊎ (date ≢ day)
      → read_counter now other date (bumped t user_id day expires cs)
        ≡ read_counter now other date cs
  unfolding read_counter bumped
  other-bumped t now other date [] h = ground arith
  other-bumped t now other date (c ∷ cs) h = ground (arith, other-bumped t now other date cs h)

-- scans recorded one after the other
unfoldable pub record_scans : Env → ℕ → List ℕ → World Store → World Store
record_scans env user_id [] w = w
record_scans env user_id (t ∷ ts) w = record_scans env user_id ts (record_scan env t user_id w).1

-- an instant of the given date, before its counters expire
pub record IsOn (env : Env) (day expires t : ℕ) : Type 0 where
  pub date : env.day_of t ≡ day
  pub expiry : env.end_of_day t ≡ expires
  pub early : t < expires

-- the count that any instant of the day reads; recording leaves the plan alone
record Counted (user_id day expires k : ℕ) (before s : Store) : Type 0 where
  same : (now : ℕ) → entitlements now user_id s ≡ entitlements now user_id before
  count : (now : ℕ) → now < expires → count_from (read_counter now user_id day s.counters) ≡ k

abbrev calm : Store → World Store
calm s = record { store = s; faults = [] }

module _ (env : Env) (user_id day expires : ℕ) where
  abbrev scanned : ℕ → Store → Store
  scanned t s = record s { counters = bumped t user_id day expires s.counters }

  record_scan-nil :
      (t : ℕ) (s : Store)
      → env.has_cache ≡ true
      → IsOn env day expires t
      → record_scan env t user_id (calm s) ≡ (ok tt, calm (scanned t s))
  unfolding record_scan call
  record_scan-nil t s c on = rw (c, on.date, on.expiry) refl

  Counted-scanned :
      (before s : Store) (t k : ℕ)
      → t < expires
      → Counted user_id day expires k before s
      → Counted user_id day expires (suc k) before (scanned t s)
  unfolding entitlements
  Counted-scanned before s t k e h = record {
    same = h.same;
    count = λ now l. count-bumped user_id day expires t now s.counters l ∙ ap suc (h.count t e);
  }

  recount :
      {j k : ℕ} {before s : Store}
      → Counted user_id day expires j before s
      → j ≡ k
      → Counted user_id day expires k before s
  recount {before = before} {s = s} h e = subst (λ n. Counted user_id day expires n before s) e h

  record_scans-Counted :
      (before s : Store) (ts : List ℕ) (k : ℕ)
      → env.has_cache ≡ true
      → All (IsOn env day expires) ts
      → Counted user_id day expires k before s
      → (s' : Store) × (record_scans env user_id ts (calm s) ≡ calm s')
        × Counted user_id day expires (length ts + k) before s'
  unfolding record_scans
  record_scans-Counted before s [] k c on h = (s, refl, recount h (omega arith))
  record_scans-Counted before s (t ∷ ts) k c on h =
      let r =
        record_scans-Counted before (scanned t s) ts (suc k) c on.1
          (Counted-scanned before s t k on.0.early h) in
      (r.0, rw (record_scan-nil t s c on.0) r.1, recount r.2 (omega arith))

daily_limit_pos : (n : ℤ) → 0 < daily_limit n
unfolding daily_limit
daily_limit_pos n = ground arith

below_limit-guard :
    (limit : ℕ) (o : Option ℕ) (w : World Store)
    → 0 < limit
    → (guard {E = Error} (below_limit limit o) scan_limit_exceeded w).0
      ≡ (if ltb (count_from o) limit then ok tt else err scan_limit_exceeded)
below_limit-guard limit none w h = ground arith
below_limit-guard limit (some n) w h = ground arith

check-Counted :
    (env : Env) (user_id now k : ℕ) (before s : Store)
    → env.has_cache ≡ true
    → is_negative (entitlements now user_id before).scans_per_day ≡ false
    → Counted user_id (env.day_of now) (env.end_of_day now) k before s
    → now < env.end_of_day now
    → (check_scan_limit env now user_id (calm s)).0 ≡ (
        if ltb k (daily_limit (entitlements now user_id before).scans_per_day)
        then ok tt
        else err scan_limit_exceeded)
unfolding check_scan_limit call get_entitlements
check-Counted env user_id now k before s c n h e =
    let limit = daily_limit (entitlements now user_id before).scans_per_day in
    rw (h.same now, n, c, ← h.count now e)
      (below_limit-guard limit (read_counter now user_id (env.day_of now) s.counters) (calm s)
        (daily_limit_pos (entitlements now user_id before).scans_per_day))

-- With a limited plan, a cache that answers and no counter yet for the day, after `ts` recorded scans
-- of one day CheckScanLimit, before the last second of that day, admits another scan exactly when fewer
-- than the plan's daily number were recorded, and refuses it with the quota's error otherwise.
pub quota_exact :
    (env : Env) (user_id now : ℕ) (s : Store) (ts : List ℕ)
    → env.has_cache ≡ true
    → is_negative (entitlements now user_id s).scans_per_day ≡ false
    → (find (is_counter user_id (env.day_of now)) s.counters ≡ none)
    → All (IsOn env (env.day_of now) (env.end_of_day now)) ts
    → now < env.end_of_day now
    → (check_scan_limit env now user_id (record_scans env user_id ts (calm s))).0 ≡ (
        if ltb (length ts) (daily_limit (entitlements now user_id s).scans_per_day)
        then ok tt
        else err scan_limit_exceeded)
unfolding read_counter
quota_exact env user_id now s ts c n h on e =
    let r =
      record_scans-Counted env user_id (env.day_of now) (env.end_of_day now) s s ts 0 c on
        (record { same = λ _. refl; count = λ now l. rw h refl }) in
    rw r.1 (
      check-Counted env user_id now (length ts) s r.0 c n
        (recount env user_id (env.day_of now) (env.end_of_day now) r.2 (omega arith)) e)
