-- ===== src/Scan/Worker/Cache/Stored.antt =====
-- A quiz that was stored in the cache (backend/internal/scan/cache.go) is found again.
use study_mate.Prelude.{
  ℕ, suc, ◌+◌, ◌≡◌, ◌≤◌, ◌<◌, refl, ◌&&◌, String, Bool, true, false, some, List, [], ◌∷◌, ◌==◌,
  str_eq, str_refl, ltb, any, find, update, arith, if◌then◌else◌, Bool-cases, inl, inr,
}
use study_mate.Exec.{ok, call}
use study_mate.Scan.Worker.Model.{CachedQuiz, CacheRow, encoded, Env, Store}
use study_mate.Scan.Worker.Cache.{
  cache_ttl, row_of, cached_of, stored_now, set_valkey, lookup_valkey, lookup_postgres, lookup,
  read_entry, fresh_entry, read_row, refill, count_hit, put_row, write_valkey, log_cache_event,
  store, cache_row,
}

-- the same quiz, stored at a time
abbrev pub SameQuiz : CachedQuiz → CachedQuiz → Type 0
SameQuiz x c =
    (x.quiz_id ≡ c.quiz_id)
    × (x.question_count ≡ c.question_count)
    × (x.subject ≡ c.subject)
    × (x.chapter ≡ c.chapter)

abbrev renewed : CachedQuiz → ℕ → CacheRow → CacheRow
renewed c ends r = record r {
  cached = record c { cached_at = r.cached.cached_at };
  expires_at = ends;
  hit_count = suc r.hit_count;
}

renewed_found :
    (hash : String) (c : CachedQuiz) (ends now : ℕ) (rs : List CacheRow)
    → ltb now ends ≡ true
    → any (λ r. str_eq r.content_hash hash) rs ≡ true
    → (r : CacheRow) × (find
          (λ r. str_eq r.content_hash hash && ltb now r.expires_at)
          (update (λ r. str_eq r.content_hash hash) (renewed c ends) rs)
        ≡ some r)
      × SameQuiz r.cached c
renewed_found hash c ends now [] early h = ground (arith, h)
renewed_found hash c ends now (r ∷ rs) early h = elim (Bool-cases (str_eq r.content_hash hash)) [
  | inl same ↦ (renewed c ends r, rw (same, same, early) refl, (refl, refl, refl, refl))
  | inr other ↦
      let (q, found, quiz) = renewed_found hash c ends now rs early (ground (arith, h, other)) in
      (q, rw (other, other) found, quiz)
]

abbrev put_rows : String → CachedQuiz → ℕ → List CacheRow → List CacheRow
put_rows hash c ends rs =
    if any (λ r. str_eq r.content_hash hash) rs
    then update (λ r. str_eq r.content_hash hash) (renewed c ends) rs
    else cache_row hash c ends ∷ rs

put_found :
    (hash : String) (c : CachedQuiz) (ends now : ℕ) (rs : List CacheRow)
    → ltb now ends ≡ true
    → (r : CacheRow) × (find
          (λ r. str_eq r.content_hash hash && ltb now r.expires_at)
          (put_rows hash c ends rs)
        ≡ some r)
      × SameQuiz r.cached c
put_found hash c ends now rs early = elim (Bool-cases (any (λ r. str_eq r.content_hash hash) rs)) [
  | inl there ↦ rw there (renewed_found hash c ends now rs early there)
  | inr new ↦
      rw new (cache_row hash c ends, rw (str_refl hash, early) refl, (refl, refl, refl, refl))
]

-- what the two tiers hold after a Store with no failing call
record Holds (hash : String) (c : CachedQuiz) (now : ℕ) (valkey : Bool) (s : Store) : Type 0 where
  rows :
      (rs : List CacheRow) × (s.content_cache
        ≡ put_rows hash (stored_now now c) (now + cache_ttl) rs)
  entry :
      valkey ≡ true
      → find (λ v. str_eq v.0 hash) s.valkey
        ≡ some (hash, encoded (stored_now now c), now + cache_ttl)

stored :
    (env : Env) (hash : String) (job_id : ℕ) (c : CachedQuiz) (s : Store)
    → str_eq hash "" ≡ false
    → (c.quiz_id == 0) ≡ false
    → Holds hash c env.now env.has_valkey
        (store env hash job_id c (record { store = s; faults = [] })).1.store
unfolding store put_row write_valkey set_valkey log_cache_event call
stored env hash job_id c s named real = elim (Bool-cases env.has_valkey) [
  | inl on ↦
      rw (named, real, on)
        (record { rows = (s.content_cache, refl); entry = λ _. rw (str_refl hash) refl })
  | inr off ↦
      rw (named, real, off)
        (record { rows = (s.content_cache, refl); entry = λ h. ground (arith, h) })
]

in_valkey :
    (env : Env) (hash : String) (c : CachedQuiz) (now : ℕ) (s : Store)
    → find (λ v. str_eq v.0 hash) s.valkey
      ≡ some (hash, encoded (stored_now now c), now + cache_ttl)
    → str_eq hash "" ≡ false
    → env.has_valkey ≡ true
    → ltb env.now (now + cache_ttl) ≡ true
    → ltb (now + cache_ttl) env.now ≡ false
    → (lookup env hash (record { store = s; faults = [] })).0 ≡ ok (some (stored_now now c))
unfolding lookup lookup_valkey read_entry fresh_entry call
in_valkey env hash c now s entry named on live fresh = rw (named, on, entry, live, fresh) refl

in_postgres :
    (env : Env) (hash : String) (r : CacheRow) (s : Store)
    → row_of env.now s hash ≡ some r
    → str_eq hash "" ≡ false
    → env.has_valkey ≡ false
    → (r.cached.quiz_id == 0) ≡ false
    → (lookup env hash (record { store = s; faults = [] })).0 ≡ ok (some (cached_of r))
unfolding lookup lookup_postgres read_row refill count_hit call
in_postgres env hash r s row named off real = rw (named, off, row, real) refl

found_again :
    (env : Env) (hash : String) (c : CachedQuiz) (now : ℕ) (s : Store)
    → Holds hash c now env.has_valkey s
    → str_eq hash "" ≡ false
    → (c.quiz_id == 0) ≡ false
    → now ≤ env.now
    → env.now < now + cache_ttl
    → (x : CachedQuiz) × ((lookup env hash (record { store = s; faults = [] })).0 ≡ ok (some x))
      × SameQuiz x c
found_again env hash c now s held named real from until = elim (Bool-cases env.has_valkey) [
  | inl on ↦ (
    stored_now now c,
    in_valkey env hash c now s (held.entry on) named on (ground (arith, until))
        (ground (arith, until)),
    (refl, refl, refl, refl),
  )
  | inr off ↦
      let (rs, rows) = held.rows in
      let (r, found, quiz) =
        put_found hash (stored_now now c) (now + cache_ttl) env.now rs (ground (arith, until)) in
      (cached_of r, in_postgres env hash r s (rw rows found) named off (rw quiz.0 real), quiz)
]

-- With no failing call, a quiz that Store has put under a key is what Lookup finds there at any time
-- before a week is over, with Valkey and without.
pub lookup-store :
    (env later : Env) (hash : String) (job_id : ℕ) (c : CachedQuiz) (s : Store)
    → str_eq hash "" ≡ false
    → (c.quiz_id == 0) ≡ false
    → later.has_valkey ≡ env.has_valkey
    → env.now ≤ later.now
    → later.now < env.now + cache_ttl
    → let held = (store env hash job_id c (record { store = s; faults = [] })).1.store in
      (x : CachedQuiz) × ((lookup later hash (record { store = held; faults = [] })).0
        ≡ ok (some x))
      × SameQuiz x c
lookup-store env later hash job_id c s named real same from until =
    found_again later hash c env.now _ (rw same (stored env hash job_id c s named real)) named real
      from until
