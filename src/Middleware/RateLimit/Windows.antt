-- ===== src/Middleware/RateLimit/Windows.antt =====
-- How many requests the rate limiter serves (backend/internal/common/middleware/ratelimit.go).
use study_mate.Prelude.{
  ℕ, suc, ◌+◌, ◌-◌, ◌≡◌, refl, String, Bool, true, false, not, Option, none, some, List, [], ◌∷◌,
  ◌==◌, ltb, leb, All, str_eq, str_refl, find, select, update, length, if◌then◌else◌, Bool-cases,
  inl, inr, arith,
}
use study_mate.Exec.{World, Result, ok, err, call}
use study_mate.Middleware.RateLimit.{
  Counter, Error, Reply, served, refused, is_live, is_counter, incr, expire, ttl, count_checked,
  limit,
}

abbrev pub is_served : Result Error Reply → Bool
is_served (ok (served shown)) = true
is_served (ok (refused wait)) = false
is_served (err e) = false

-- how many of the requests at the times `ts` are served
unfoldable pub served_of : ℕ → ℕ → String → List ℕ → World (List Counter) → ℕ
served_of most window key [] w = 0
served_of most window key (t ∷ ts) w =
    let r = limit t most window key w in
    let rest = served_of most window key ts r.1 in if is_served r.0 then suc rest else rest

abbrev pub smaller : ℕ → ℕ → ℕ
smaller m n = if leb m n then m else n

-- a counter that lives and was counted before
counter_of : String → ℕ → Option ℕ → Counter
counter_of key n e = record { key = key; count = n; expires_at = e }

abbrev pub calm : List Counter → World (List Counter)
calm s = record { store = s; faults = [] }

not_first : (n : ℕ) → (suc (suc n) == 1) ≡ false
not_first n = ground arith

module _ (most window : ℕ) (key : String) (named : str_eq key "" ≡ false) where
  counted :
      (t n : ℕ) (e : Option ℕ) (rest : List Counter)
      → is_live t e ≡ true
      → (is_served (limit t most window key (calm (counter_of key (suc n) e ∷ rest))).0
          ≡ leb (suc (suc n)) most)
        × ((limit t most window key (calm (counter_of key (suc n) e ∷ rest))).1
            ≡ calm (counter_of key (suc (suc n)) e ∷ select (λ d. not (str_eq d.key key)) rest))
  unfolding limit incr count_checked expire ttl call counter_of
  counted t n e rest live = elim (Bool-cases (ltb most (suc (suc n)))) [
    | inl over ↦ rw (named, str_refl key, live, not_first n, over) (ground (arith, over), refl)
    | inr within ↦
        rw (named, str_refl key, live, not_first n, within) (ground (arith, within), refl)
  ]

  served_while_live :
      (n : ℕ) (e : Option ℕ) (rest : List Counter) (ts : List ℕ)
      → All (λ t. is_live t e ≡ true) ts
      → served_of most window key ts (calm (counter_of key (suc n) e ∷ rest))
        ≡ smaller (length ts) (most - suc n)
  unfolding served_of
  served_while_live n e rest [] live = ground arith
  served_while_live n e rest (t ∷ ts) live =
      let now = counted t n e rest live.0 in
      let later =
        served_while_live (suc n) e (select (λ d. not (str_eq d.key key)) rest) ts live.1 in
      rw (now.0, now.1, later) (ground arith)

  -- a request that opens a window, and what it leaves
  opened :
      (t : ℕ) (s : List Counter)
      → find (is_counter t key) s ≡ none
      → (is_served (limit t most window key (calm s)).0 ≡ leb 1 most)
        × ((limit t most window key (calm s)).1
            ≡ calm (
                counter_of key 1 (some (t + window))
                ∷ update
                    (is_counter t key)
                    (λ c. record c { expires_at = some (t + window) })
                    (select (λ d. not (str_eq d.key key)) s)))
  unfolding limit incr count_checked expire ttl call counter_of
  opened t s new = elim (Bool-cases (ltb most 1)) [
    | inl over ↦ rw (named, new, str_refl key, over) (ground (arith, over), refl)
    | inr within ↦ rw (named, new, str_refl key, within) (ground (arith, within), refl)
  ]

  -- the same when EXPIRE fails
  opened_for_good :
      (t : ℕ) (s : List Counter)
      → find (is_counter t key) s ≡ none
      → let r = limit t most window key (record { store = s; faults = false ∷ true ∷ [] }) in
        (is_served r.0 ≡ leb 1 most)
        × (r.1 ≡ calm (counter_of key 1 none ∷ select (λ d. not (str_eq d.key key)) s))
  unfolding limit incr count_checked expire ttl call counter_of
  opened_for_good t s new = elim (Bool-cases (ltb most 1)) [
    | inl over ↦ rw (named, new, over) (ground (arith, over), refl)
    | inr within ↦ rw (named, new, within) (ground (arith, within), refl)
  ]

  always_live : (ts : List ℕ) → All (λ t. is_live t none ≡ true) ts
  always_live [] = tt
  always_live (t ∷ ts) = (refl, always_live ts)

-- With no failing call the limiter serves, of the requests under one key within a window, as many as
-- there are or as many as the limit, whichever is less.
pub window_limit :
    (most window : ℕ) (key : String) (t : ℕ) (ts : List ℕ) (s : List Counter)
    → str_eq key "" ≡ false
    → find (is_counter t key) s ≡ none
    → All (λ u. ltb u (t + window) ≡ true) ts
    → served_of most window key (t ∷ ts) (calm s) ≡ smaller (suc (length ts)) most
unfolding served_of
window_limit most window key t ts s named new within =
    let first = opened most window key named t s new in
    rw (first.0, first.1, served_while_live most window key named 0 (some (t + window)) _ ts within)
      (ground arith)

-- When the EXPIRE that opens a window fails, no window ends: of all requests under the key from then
-- on, however late they come, the limiter serves no more than the limit.
pub lost_window :
    (most window : ℕ) (key : String) (t : ℕ) (ts : List ℕ) (s : List Counter)
    → str_eq key "" ≡ false
    → find (is_counter t key) s ≡ none
    → served_of most window key (t ∷ ts) (record { store = s; faults = false ∷ true ∷ [] })
      ≡ smaller (suc (length ts)) most
unfolding served_of
lost_window most window key t ts s named new =
    let first = opened_for_good most window key named t s new in
    rw
      (
        first.0,
        first.1,
        served_while_live most window key named 0 none _ ts (always_live most window key named ts),
      )
      (ground arith)
