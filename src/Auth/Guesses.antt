-- ===== src/Auth/Guesses.antt =====
-- Wrong codes at VerifyRegistrationOTP (backend/internal/auth/service.go).
use Prim.Native.String.{len}
use study_mate.Prelude.{
  ℕ, suc, ◌+◌, ◌≡◌, ◌≤◌, refl, String, Bool, true, false, List, [], ◌∷◌, some, none, Option, ◌==◌,
  ==_refl, arith, ltb, leb, str_eq, update, trim_space, if◌then◌else◌, length, All, inl, inr,
  Bool-cases, ap, ◌∙◌,
}
use study_mate.Exec.{Result, ok, IsError, World, call, attempt, pure, ◌>>=◌}
use study_mate.Auth.Model.{EmailVerificationOtp, Env, Error, Auth, Store, max_otp_attempts}
use study_mate.Auth.Repository.{
  latest_otp, otp_of, bump_attempts, get_latest_email_otp, increment_email_otp_attempts,
}
use study_mate.Auth.Validation.{validate_email}
use study_mate.Auth.Registration.{verify_registration_otp, check_otp, refuse_code}

-- an update of one row that keeps the columns of the query keeps the row that the query finds
map_if : (EmailVerificationOtp → Bool) → Option EmailVerificationOtp → Option EmailVerificationOtp
map_if test none = none
map_if test (some o) = some (if test o then bump_attempts o else o)

latest_otp-update :
    (test row : EmailVerificationOtp → Bool) (os : List EmailVerificationOtp)
    → ((o : EmailVerificationOtp) → test (bump_attempts o) ≡ test o)
    → latest_otp test (update row bump_attempts os) ≡ map_if row (latest_otp test os)
unfolding latest_otp map_if
latest_otp-update test row [] keep = refl
latest_otp-update test row (o ∷ os) keep =
    ground (arith, keep o, latest_otp-update test row os keep)

-- what a request to verify an address brings
pub record Guess : Type 0 where
  pub now : ℕ
  pub token : String
  pub code : String

guess : Env → String → Guess → Auth (Result Error String)
guess env email g = attempt (verify_registration_otp env g.now g.token email g.code)

-- requests one after the other, whatever they answer
unfoldable pub guesses : Env → String → List Guess → Auth Unit
unfolding guess
guesses env email [] = pure tt
guesses env email (g ∷ rest) = guess env email g >>= λ _. guesses env email rest

-- a code of six digits that is not the stored one, sent before that one expires
pub record IsWrong (env : Env) (o : EmailVerificationOtp) (g : Guess) : Type 0 where
  pub six : (len (trim_space g.code) == 6) ≡ true
  pub wrong : str_eq (env.hash_otp (trim_space g.code)) o.otp_hash ≡ false
  pub early : ltb o.expires_at g.now ≡ false

abbrev counted : EmailVerificationOtp → ℕ → EmailVerificationOtp
counted o k = record o { attempts = k }

-- `o` with some number of attempts is the row that counts, `n` wrong codes before it is locked
record Left (s : Store) (address : String) (o : EmailVerificationOtp) (n : ℕ) : Type 0 where
  attempts : ℕ
  latest : otp_of s address ≡ some (counted o attempts)
  unused : o.verified ≡ false
  limit : max_otp_attempts ≤ attempts + n

bumped : Store → ℕ → Store
bumped s id = record s { otps = update (λ o. o.id == id) bump_attempts s.otps }

otp_of-bumped :
    (s : Store) (address : String) (o : EmailVerificationOtp)
    → otp_of s address ≡ some o
    → otp_of (bumped s o.id) address ≡ some (bump_attempts o)
unfolding bumped map_if
otp_of-bumped s address o h =
    latest_otp-update (λ o. str_eq o.email address) (λ x. x.id == o.id) s.otps (λ o. refl)
    ∙ rw (h, ==_refl o.id) refl

module _ (env : Env) (email address : String) (o : EmailVerificationOtp) (s : Store)
    (valid : validate_email env email ≡ ok address) where
  -- a locked code refuses everything
  locked :
      (g : Guess) (fs : List Bool)
      → Left s address o 0
      → let r =
          verify_registration_otp env g.now g.token email g.code
            (record { store = s; faults = fs }) in
        IsError r.0 × (r.1.store ≡ s)
  unfolding verify_registration_otp get_latest_email_otp check_otp call
  locked g fs left = rw valid (ground (arith, left.latest, left.limit, left.unused))

  counted_step :
      (g : Guess) (k : ℕ)
      → otp_of s address ≡ some (counted o k)
      → o.verified ≡ false
      → leb max_otp_attempts k ≡ false
      → IsWrong env o g
      → (verify_registration_otp env g.now g.token email g.code
          (record { store = s; faults = [] })).1
        ≡ record { store = bumped s o.id; faults = [] }
  unfolding verify_registration_otp get_latest_email_otp check_otp call refuse_code bumped
      increment_email_otp_attempts
  counted_step g k latest unused below w =
      rw (valid, w.six, latest, unused, w.early, below, w.wrong) refl

  refused_step :
      (g : Guess) (k : ℕ)
      → otp_of s address ≡ some (counted o k)
      → o.verified ≡ false
      → leb max_otp_attempts k ≡ true
      → IsWrong env o g
      → (verify_registration_otp env g.now g.token email g.code
          (record { store = s; faults = [] })).1
        ≡ record { store = s; faults = [] }
  unfolding verify_registration_otp get_latest_email_otp check_otp call
  refused_step g k latest unused below w = rw (valid, w.six, latest, unused, w.early, below) refl

calm : Store → World Store
calm s = record { store = s; faults = [] }

-- one wrong code
guess-Left :
    (env : Env) (email address : String) (o : EmailVerificationOtp) (s : Store) (g : Guess) (n : ℕ)
    → validate_email env email ≡ ok address
    → IsWrong env o g
    → Left s address o (suc n)
    → (t : Store) × (Left t address o n) × ((guess env email g (calm s)).1 ≡ calm t)
unfolding guess calm
guess-Left env email address o s g n valid w left =
    elim (Bool-cases (leb max_otp_attempts left.attempts)) [
      | inl h ↦ (
        s,
        record {
          attempts = left.attempts;
          latest = left.latest;
          unused = left.unused;
          limit = ground (arith, h);
        },
        refused_step env email address o s valid g left.attempts left.latest left.unused h w,
      )
      | inr h ↦ (
        bumped s o.id,
        record {
          attempts = suc left.attempts;
          latest = otp_of-bumped s address (counted o left.attempts) left.latest;
          unused = left.unused;
          limit = let l = left.limit in omega arith;
        },
        counted_step env email address o s valid g left.attempts left.latest left.unused h w,
      )
    ]

-- a list of wrong codes
guesses-Left :
    (env : Env) (email address : String) (o : EmailVerificationOtp) (gs : List Guess) (s : Store)
    → validate_email env email ≡ ok address
    → All (IsWrong env o) gs
    → Left s address o (length gs)
    → (t : Store) × (Left t address o 0) × ((guesses env email gs (calm s)).1 ≡ calm t)
unfolding guesses calm
guesses-Left env email address o [] s valid ws left = (s, left, refl)
guesses-Left env email address o (g ∷ gs) s valid ws left =
    let (t, left', step) = guess-Left env email address o s g (length gs) valid ws.0 left in
    let (u, done, run) = guesses-Left env email address o gs t valid ws.1 left' in
    (u, done, ap (λ w. (guesses env email gs w).1) step ∙ run)

-- After five wrong codes for an address, sent one after the other with no failing call before the code
-- expires, every code that is verified next is refused, the right one too, whatever calls fail then,
-- and the refusal changes nothing.
pub guess_limit :
    (env : Env) (email address : String) (o : EmailVerificationOtp) (gs : List Guess) (s : Store)
    → validate_email env email ≡ ok address
    → otp_of s address ≡ some o
    → o.verified ≡ false
    → All (IsWrong env o) gs
    → max_otp_attempts ≤ length gs
    → (t : Store) × ((guesses env email gs (record { store = s; faults = [] })).1
        ≡ record { store = t; faults = [] })
      × ((g : Guess) (fs : List Bool)
          → let r =
              verify_registration_otp env g.now g.token email g.code
                (record { store = t; faults = fs }) in
            IsError r.0 × (r.1.store ≡ t))
unfolding calm
guess_limit env email address o gs s valid latest unused wrong many =
    let start : Left s address o (length gs) = record {
      attempts = o.attempts;
      latest = latest;
      unused = unused;
      limit = omega arith;
    } in
    let (t, left, run) = guesses-Left env email address o gs s valid wrong start in
    (t, run, λ g fs. locked env email address o t valid g fs left)
