-- ===== src/Scan/Worker/Cache.antt =====
-- The two tiers of the quiz cache (backend/internal/scan/cache.go), with the database there. A key of
-- Valkey is gone once its instant is past. The decoding of an entry's text is in its constructor.
pub mod Stored
use study_mate.Prelude.{
  ℕ, suc, ◌+◌, ◌-◌, ◌*◌, String, Bool, false, not, ◌||◌, ◌&&◌, Option, none, some, [], ◌∷◌, ◌==◌,
  ltb, str_eq, any, find, select, update, if◌then◌else◌, length,
}
use study_mate.Exec.{Result, ok, call, pure, raise, attempt, guard, ◌>>=◌, ◌>>◌}
use study_mate.Scan.Worker.Model.{
  Error, cache_failed, invalid_cache_input, CachedQuiz, CacheRow, Entry, encoded, number, garbage,
  GenerationLog, Env, Store, Work,
}

-- CacheTTL
abbrev pub cache_ttl : ℕ
cache_ttl = 7 * 24 * 3600

abbrev live_entry : ℕ → Option (String × Entry × ℕ) → Option Entry
live_entry now none = none
live_entry now (some (key, e, ends)) = if ltb now ends then some e else none

abbrev pub entry_of : ℕ → Store → String → Option Entry
entry_of now s hash = live_entry now (find (λ v. str_eq v.0 hash) s.valkey)

-- Del
unfoldable pub delete_valkey : String → Work Unit
delete_valkey hash =
    call cache_failed
      λ s. (ok tt, record s { valkey = select (λ v. not (str_eq v.0 hash)) s.valkey })

-- setRedis
unfoldable pub set_valkey : ℕ → String → CachedQuiz → ℕ → Work Unit
set_valkey now hash cached ttl = call cache_failed λ s. (
  ok tt,
  record s {
    valkey = (hash, encoded cached, now + ttl) ∷ select (λ v. not (str_eq v.0 hash)) s.valkey;
  },
)

abbrev is_past : ℕ → Option ℕ → Bool
is_past now none = false
is_past now (some t) = ltb t now

-- an entry that expired is deleted and counts as none
unfoldable pub fresh_entry : ℕ → String → CachedQuiz → Work (Option CachedQuiz)
unfolding delete_valkey
fresh_entry now hash cached =
    if is_past now cached.expires_at
    then (do gone ← attempt (delete_valkey hash); pure none)
    else pure (some cached)

abbrev plain_number : ℕ → CachedQuiz
plain_number n = record {
  quiz_id = n;
  question_count = 0;
  cached_at = none;
  expires_at = none;
  subject = "";
  chapter = "";
}

unfoldable pub read_entry : ℕ → String → Option Entry → Work (Option CachedQuiz)
unfolding fresh_entry
read_entry now hash none = pure none
read_entry now hash (some (encoded cached)) = fresh_entry now hash cached
read_entry now hash (some (number n)) =
    if n == 0 then raise cache_failed else pure (some (plain_number n))
read_entry now hash (some garbage) = raise cache_failed

-- lookupRedis
unfoldable pub lookup_valkey : ℕ → String → Work (Option CachedQuiz)
unfolding read_entry
lookup_valkey now hash = do
  entry ← call cache_failed λ s. (ok (entry_of now s hash), s)
  read_entry now hash entry

abbrev pub row_of : ℕ → Store → String → Option CacheRow
row_of now s hash = find (λ r. str_eq r.content_hash hash && ltb now r.expires_at) s.content_cache

-- the row's columns; created_at stays when the row is written again
abbrev pub cached_of : CacheRow → CachedQuiz
cached_of r = record r.cached { expires_at = some r.expires_at }

unfoldable pub count_hit : String → Work Unit
count_hit hash = call cache_failed λ s. (
  ok tt,
  record s {
    content_cache =
        update (λ r. str_eq r.content_hash hash) (λ r. record r { hit_count = suc r.hit_count })
          s.content_cache;
  },
)

unfoldable pub refill : Env → String → CacheRow → Work Unit
unfolding set_valkey
refill env hash r =
    if env.has_valkey && ltb env.now r.expires_at
    then set_valkey env.now hash (cached_of r) (r.expires_at - env.now)
    else pure tt

unfoldable pub read_row : Env → String → Option CacheRow → Work (Option CachedQuiz)
unfolding count_hit refill
read_row env hash none = pure none
read_row env hash (some r) = if r.cached.quiz_id == 0 then pure none else (do
  refilled ← attempt (refill env hash r)
  counted ← attempt (count_hit hash)
  pure (some (cached_of r)))

-- lookupPostgres
unfoldable pub lookup_postgres : Env → String → Work (Option CachedQuiz)
unfolding read_row
lookup_postgres env hash = do
  row ← call cache_failed λ s. (ok (row_of env.now s hash), s)
  read_row env hash row

abbrev pub or_postgres : Env → String → Option CachedQuiz → Work (Option CachedQuiz)
or_postgres env hash (some cached) = pure (some cached)
or_postgres env hash none = lookup_postgres env hash

-- Lookup
unfoldable pub lookup : Env → String → Work (Option CachedQuiz)
unfolding lookup_valkey lookup_postgres
lookup env hash =
    if str_eq hash ""
    then pure none
    else if env.has_valkey
    then (do cached ← lookup_valkey env.now hash; or_postgres env hash cached)
    else lookup_postgres env hash

abbrev pub log_of : Env → ℕ → ℕ → Bool → GenerationLog
log_of env job_id count hit = record {
  scan_job_id = job_id;
  provider = env.gen_provider;
  question_count = count;
  cache_hit = hit;
  failed = false;
}

-- logCacheEvent: a failure is only written to the log
unfoldable pub log_cache_event : Env → ℕ → ℕ → Bool → Work (Result Error Unit)
log_cache_event env job_id count hit =
    attempt
      (call cache_failed λ s. (ok tt, record s { logs = log_of env job_id count hit ∷ s.logs }))

abbrev cache_row : String → CachedQuiz → ℕ → CacheRow
cache_row hash cached ends = record {
  content_hash = hash;
  cached = cached;
  expires_at = ends;
  hit_count = 1;
}

-- the insertion, with ON CONFLICT (content_hash) DO UPDATE
unfoldable pub put_row : String → CachedQuiz → ℕ → Work Unit
put_row hash cached ends = call cache_failed λ s. (
  ok tt,
  record s {
    content_cache =
        if any (λ r. str_eq r.content_hash hash) s.content_cache
        then update (λ r. str_eq r.content_hash hash)
            (λ r. record r {
              cached = record cached { cached_at = r.cached.cached_at };
              expires_at = ends;
              hit_count = suc r.hit_count;
            })
            s.content_cache
        else cache_row hash cached ends ∷ s.content_cache;
  },
)

unfoldable pub write_valkey : Env → String → CachedQuiz → Work Unit
unfolding set_valkey
write_valkey env hash cached =
    if env.has_valkey then set_valkey env.now hash cached cache_ttl else pure tt

abbrev pub stored_now : ℕ → CachedQuiz → CachedQuiz
stored_now now cached = record cached { cached_at = some now; expires_at = some (now + cache_ttl) }

-- Store; a failing write of Valkey is only written to the log
unfoldable pub store : Env → String → ℕ → CachedQuiz → Work Unit
unfolding put_row write_valkey log_cache_event
store env hash job_id cached = do
  guard (not (str_eq hash "" || cached.quiz_id == 0)) invalid_cache_input
  let entry = stored_now env.now cached
  put_row hash entry (env.now + cache_ttl)
  written ← attempt (write_valkey env hash entry)
  logged ← log_cache_event env job_id cached.question_count false
  pure tt

-- Invalidate
unfoldable pub invalidate : Env → String → Work Unit
unfolding delete_valkey
invalidate env hash = do
  guard (not (str_eq hash "")) invalid_cache_input
  call cache_failed λ s. (
    ok tt,
    record s { content_cache = select (λ r. not (str_eq r.content_hash hash)) s.content_cache },
  )
  if env.has_valkey then delete_valkey hash else pure tt

-- PurgeExpired
unfoldable pub purge_expired : ℕ → Work ℕ
purge_expired now = call cache_failed λ s. (
  ok (length (select (λ r. ltb r.expires_at now) s.content_cache)),
  record s { content_cache = select (λ r. not (ltb r.expires_at now)) s.content_cache },
)

-- PurgeAll
unfoldable pub purge_all : Work ℕ
purge_all = call cache_failed λ s. (ok (length s.content_cache), record s { content_cache = [] })
