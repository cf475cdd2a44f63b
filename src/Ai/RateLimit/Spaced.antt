-- ===== src/Ai/RateLimit/Spaced.antt =====
-- The cap that Allow keeps, over any sequence of calls whose times do not decrease.
use study_mate.Prelude.{
  ℕ, suc, ◌≡◌, ◌≤◌, refl, Bool, true, false, ◌&&◌, List, [], ◌∷◌, ◌++◌, ◌==◌, ==_refl, ==_iff, ◌∙◌,
  ap, length, select, ltb, leb, if◌then◌else◌, arith, Bool-cases, inl, inr, subst,
}
use study_mate.Ai.RateLimit.{RateLimiter, Calls, is_recent, allow, no_calls}

-- a call at a time, by a user
pub record Call : Type 0 where
  pub now : ℕ
  pub user : ℕ

-- the granted times of one user, the newest first, added to those before
abbrev logged : ℕ → Call → Bool → List ℕ → List ℕ
logged user c granted log = if granted && c.user == user then c.now ∷ log else log

unfoldable pub grants : RateLimiter → ℕ → List Call → Calls → List ℕ → List ℕ
grants limiter user [] calls log = log
grants limiter user (c ∷ rest) calls log =
    let (granted, calls') = allow limiter c.now c.user calls in
    grants limiter user rest calls' (logged user c granted log)

-- the specification: a log of all granted calls of the user, counted afresh at each call
abbrev pub reference_step : RateLimiter → ℕ → Call → List ℕ → List ℕ
reference_step limiter user c log =
    if c.user == user
      && ltb (length (select (is_recent limiter.window c.now) log)) limiter.max_calls
    then c.now ∷ log
    else log

unfoldable pub reference : RateLimiter → ℕ → List Call → List ℕ → List ℕ
reference limiter user [] log = log
reference limiter user (c ∷ rest) log =
    reference limiter user rest (reference_step limiter user c log)

-- each granted time and those in the window before it are at most `max_calls`
abbrev pub IsCapped : RateLimiter → List ℕ → Type 0
IsCapped limiter [] = Unit
IsCapped limiter (t ∷ rest) =
    (suc (length (select (is_recent limiter.window t) rest)) ≤ limiter.max_calls)
    × IsCapped limiter rest

-- the calls come in order of time
abbrev pub InOrder : ℕ → List Call → Type 0
InOrder start [] = Unit
InOrder start (c ∷ rest) = (start ≤ c.now) × InOrder c.now rest

select-select :
    (w now n : ℕ) (ts : List ℕ)
    → now ≤ n
    → select (is_recent w n) (select (is_recent w now) ts) ≡ select (is_recent w n) ts
select-select w now n [] h = refl
select-select w now n (t ∷ ts) h = ground (arith, h, select-select w now n ts h)

length-select-snoc :
    (p : ℕ → Bool) (ts : List ℕ) (t : ℕ)
    → length (select p (ts ++ (t ∷ []))) ≡ length (select p (t ∷ ts))
length-select-snoc p [] t = refl
length-select-snoc p (s ∷ ts) t = ground (arith, length-select-snoc p ts t)

length-select-cons :
    (p : ℕ → Bool) (t : ℕ) (xs ys : List ℕ)
    → length (select p xs) ≡ length (select p ys)
    → length (select p (t ∷ xs)) ≡ length (select p (t ∷ ys))
length-select-cons p t xs ys h = ground (arith, h)

-- what is stored for the user counts like the log, from `last` on
record Agree (limiter : RateLimiter) (user last : ℕ) (calls : Calls) (log : List ℕ) : Type 0 where
  same :
      (n : ℕ)
      → last ≤ n
      → length (select (is_recent limiter.window n) (calls user))
        ≡ length (select (is_recent limiter.window n) log)

module _ (limiter : RateLimiter) (now user : ℕ) (calls : Calls) where
  abbrev recent : List ℕ
  recent = select (is_recent limiter.window now) (calls user)

  allow_other :
      (other : ℕ) → (user == other) ≡ false → (allow limiter now user calls).1 other ≡ calls other
  unfolding allow
  allow_other other h = ground (arith, h)

  allow_full :
      leb limiter.max_calls (length recent) ≡ true
      → ((allow limiter now user calls).0 ≡ false)
        × ((allow limiter now user calls).1 user ≡ recent)
  unfolding allow
  allow_full h = rw (h, ==_refl user) (refl, refl)

  allow_free :
      leb limiter.max_calls (length recent) ≡ false
      → ((allow limiter now user calls).0 ≡ true)
        × ((allow limiter now user calls).1 user ≡ recent ++ (now ∷ []))
  unfolding allow
  allow_free h = rw (h, ==_refl user) (refl, refl)

-- one call, whoever makes it
record Step (limiter : RateLimiter) (user : ℕ) (c : Call) (calls : Calls) (log : List ℕ)
    : Type 0 where
  agree :
      Agree limiter user c.now
        (allow limiter c.now c.user calls).1
        (logged user c (allow limiter c.now c.user calls).0 log)
  exact : logged user c (allow limiter c.now c.user calls).0 log ≡ reference_step limiter user c log
  capped :
      IsCapped limiter log
      → IsCapped limiter (logged user c (allow limiter c.now c.user calls).0 log)

logged_other :
    (user : ℕ) (c : Call) (granted : Bool) (log : List ℕ)
    → (c.user == user) ≡ false
    → logged user c granted log ≡ log
logged_other user c true log h = rw h refl
logged_other user c false log h = refl

module _ (limiter : RateLimiter) (last : ℕ) (c : Call) (calls : Calls) (log : List ℕ) where
  other_step :
      (user : ℕ)
      → Agree limiter user last calls log
      → last ≤ c.now
      → (c.user == user) ≡ false
      → Step limiter user c calls log
  other_step user agree later other =
      let same_log = logged_other user c (allow limiter c.now c.user calls).0 log other in
      record {
        agree = record {
          same = λ n h.
              rw (allow_other limiter c.now c.user calls user other, same_log)
                (agree.same n (omega arith));
        };
        exact = rw (same_log, other) refl;
        capped = λ k. rw same_log k;
      }

  full_step :
      Agree limiter c.user last calls log
      → last ≤ c.now
      → leb limiter.max_calls (length (recent limiter c.now c.user calls)) ≡ true
      → Step limiter c.user c calls log
  full_step agree later full =
      let (refused, kept) = allow_full limiter c.now c.user calls full in
      record {
        agree = record {
          same = λ n h.
              rw (refused, kept)
                (ap length (select-select limiter.window c.now n (calls c.user) h)
                  ∙ agree.same n (omega arith));
        };
        exact = rw (refused, ==_refl c.user) (ground (arith, full, agree.same c.now later));
        capped = λ k. rw refused k;
      }

  free_step :
      Agree limiter c.user last calls log
      → last ≤ c.now
      → leb limiter.max_calls (length (recent limiter c.now c.user calls)) ≡ false
      → Step limiter c.user c calls log
  free_step agree later free =
      let (granted, kept) = allow_free limiter c.now c.user calls free in
      record {
        agree = record {
          same = λ n h.
              rw (granted, kept, ==_refl c.user)
                (length-select-snoc (is_recent limiter.window n) (recent limiter c.now c.user calls)
                    c.now
                  ∙ length-select-cons (is_recent limiter.window n) c.now
                      (recent limiter c.now c.user calls) log
                      (ap length (select-select limiter.window c.now n (calls c.user) h)
                        ∙ agree.same n (omega arith)));
        };
        exact = rw (granted, ==_refl c.user) (ground (arith, free, agree.same c.now later));
        capped =
            λ k. rw (granted, ==_refl c.user) (ground (arith, free, agree.same c.now later), k);
      }

mine_step :
    (limiter : RateLimiter) (last : ℕ) (c : Call) (calls : Calls) (log : List ℕ)
    → last ≤ c.now
    → Agree limiter c.user last calls log
    → Step limiter c.user c calls log
mine_step limiter last c calls log later agree =
    elim (Bool-cases (leb limiter.max_calls (length (recent limiter c.now c.user calls)))) [
      | inl full ↦ full_step limiter last c calls log agree later full
      | inr free ↦ free_step limiter last c calls log agree later free
    ]

-- one call of any user
step :
    (limiter : RateLimiter) (user last : ℕ) (c : Call) (calls : Calls) (log : List ℕ)
    → Agree limiter user last calls log
    → last ≤ c.now
    → Step limiter user c calls log
step limiter user last c calls log agree later = elim (Bool-cases (c.user == user)) [
  | inr other ↦ other_step limiter last c calls log user agree later other
  | inl mine ↦
      subst (λ u. Agree limiter u last calls log → Step limiter u c calls log)
        ((==_iff c.user user).0 mine) (mine_step limiter last c calls log later) agree
]

grants_exact :
    (limiter : RateLimiter) (user last : ℕ) (cs : List Call) (calls : Calls) (log : List ℕ)
    → Agree limiter user last calls log
    → InOrder last cs
    → IsCapped limiter log
    → (grants limiter user cs calls log ≡ reference limiter user cs log)
      × IsCapped limiter (grants limiter user cs calls log)
unfolding grants reference
grants_exact limiter user last [] calls log agree order capped = (refl, capped)
grants_exact limiter user last (c ∷ cs) calls log agree order capped =
    let one = step limiter user last c calls log agree order.0 in
    let (same, kept) =
      grants_exact limiter user c.now cs (allow limiter c.now c.user calls).1
        (logged user c (allow limiter c.now c.user calls).0 log) one.agree order.1
        (one.capped capped) in
    (same ∙ ap (reference limiter user cs) one.exact, kept)

-- Over any sequence of calls in order of time, from an empty limiter, the calls granted to a user are
-- those that a log of all granted calls would grant: those before which fewer than the maximum were
-- granted within the window. So no window that ends with a granted call holds more than the maximum.
pub grants-reference :
    (limiter : RateLimiter) (user start : ℕ) (cs : List Call)
    → InOrder start cs
    → (grants limiter user cs no_calls [] ≡ reference limiter user cs [])
      × IsCapped limiter (grants limiter user cs no_calls [])
grants-reference limiter user start cs order =
    grants_exact limiter user start cs no_calls [] (record { same = λ n h. refl }) order tt
