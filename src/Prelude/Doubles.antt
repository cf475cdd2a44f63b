-- ===== src/Prelude/Doubles.antt =====
-- Arithmetic of float64 on numbers that are not negative. A number is a fraction whose denominator is a
-- power of two; a result is rounded to 53 binary digits, to the even one of two that are equally near.
mod Near
pub mod Tenths
use Prim.Native.Nat.{◌^◌, ℕ, zero, suc, ◌+◌, ◌*◌, ◌/◌, ◌%◌, ◌≤◌, ◌<◌}
use mathlib.Core.Path.{◌≡◌, ap}
use mathlib.Core.Logic.{◌⊎◌, inl, inr}
use mathlib.Core.Bool.{Bool, true, false}
use native.Mathlib.Omega.{arith}
use native.Mathlib.Nat.{div-lt_iff_lt-mul, le-div_iff_mul-le, div-le_of_le-mul, div-add-mod}
use study_mate.Prelude.Tests.{Bool-cases, ltb, leb, ◌==◌, if◌then◌else◌}

pub record Double : Type 0 where
  pub num : ℕ
  pub den : ℕ

-- the whole number nearest to a fraction, the even one at a half
unfoldable pub nearest : ℕ → ℕ → ℕ
nearest n d =
    let q = n / d in
    let r = 2 * (n % d) in
    if ltb r d then q else if ltb d r then suc q else if q % 2 == 0 then q else suc q

-- the fraction `n / d`, doubled until its whole part has 53 digits; `p` counts the doublings
unfoldable pub scaled : ℕ → ℕ → ℕ → ℕ → Double
unfolding nearest
scaled zero n d p = record { num = nearest n d; den = p }
scaled (suc fuel) n d p =
    let more = scaled fuel (2 * n) d (2 * p) in
    if leb (4503599627370496 * d) n then record { num = nearest n d; den = p } else more

-- 128 doublings are enough for a fraction of two numbers below 2 ^ 64
unfoldable pub rounded : ℕ → ℕ → Double
unfolding scaled
rounded n d = scaled 128 n d 1

abbrev pub times : Double → ℕ → Double
times x k = rounded (x.num * k) x.den

-- math.Round: a half is rounded up
abbrev pub round : Double → ℕ
round x = (2 * x.num + x.den) / (2 * x.den)

nearest_near :
    (n d : ℕ)
    → 0 < d
    → (n / d ≤ nearest n d) × (nearest n d ≤ suc (n / d)) × (n % d ≡ 0 → nearest n d ≡ n / d)
unfolding nearest
nearest_near n d pos = (ground arith, ground arith, λ h. ground (arith, h, pos))

times_comm : (a b : ℕ) → a * b ≡ b * a
times_comm a b = grind arith

pub times_swap : (a b c : ℕ) → a * b * c ≡ a * c * b
times_swap a b c = grind arith

pub times_le : (a b c : ℕ) → a ≤ b → a * c ≤ b * c
times_le a b c h = grind (arith, h)

le_cases : (q k : ℕ) → q ≤ k → (suc q ≤ k) ⊎ (q ≡ k)
le_cases q k h = ground (arith, h)

at_most : (n d k q r : ℕ) → n ≤ k * d → d * q + r ≡ n → q ≤ k → (suc q ≤ k) ⊎ (r ≡ 0)
at_most n d k q r h e below = elim (le_cases q k below) [
  | inl less ↦ inl less
  | inr same ↦ inr (omega (arith, h, e, ap (λ x. d * x) same, times_comm d k))
]

nearest_up : (n d k : ℕ) → 0 < d → n ≤ k * d → nearest n d ≤ k
nearest_up n d k pos h =
    let near = nearest_near n d pos in
    let below = div-le_of_le-mul d {m = n} {n = k} (grind (arith, h)) in
    elim (at_most n d k (n / d) (n % d) h (div-add-mod n d) below) [
      | inl less ↦ omega (arith, near.1, less)
      | inr whole ↦ omega (arith, near.2 whole, below)
    ]

nearest_down : (n d k : ℕ) → 0 < d → k * d ≤ n → k ≤ nearest n d
nearest_down n d k pos h =
    let at_least = (le-div_iff_mul-le {k = d} {x = k} {y = n} pos).1 h in
    omega (arith, at_least, (nearest_near n d pos).0)

suc_times : (k p : ℕ) → suc k * p ≡ k * p + p
suc_times k p = grind arith

pub doubled : (m p n : ℕ) → m * p ≡ n → m * (2 * p) ≡ 2 * n
doubled m p n e = grind (arith, e)

-- rounding keeps an order with a whole number
record Keeps (n d k : ℕ) (x : Double) : Type 0 where
  den_pos : 0 < x.den
  up : n ≤ k * d → x.num ≤ k * x.den
  down : k * d ≤ n → k * x.den ≤ x.num

stopped-Keeps :
    (n d p m k : ℕ)
    → 0 < d
    → 0 < p
    → m * p ≡ n
    → Keeps m d k (record { num = nearest n d; den = p })
stopped-Keeps n d p m k dpos ppos e = record {
  den_pos = ppos;
  up =
      λ h. nearest_up n d (k * p) dpos (omega (arith, e, times_le m (k * d) p h, times_swap k d p));
  down = λ h.
      nearest_down n d (k * p) dpos (omega (arith, e, times_le (k * d) m p h, times_swap k d p));
}

scaled-Keeps : (fuel n d p m k : ℕ) → 0 < d → 0 < p → m * p ≡ n → Keeps m d k (scaled fuel n d p)
unfolding scaled
scaled-Keeps zero n d p m k dpos ppos e = stopped-Keeps n d p m k dpos ppos e
scaled-Keeps (suc fuel) n d p m k dpos ppos e =
    choose (leb (4503599627370496 * d) n) _ _ (stopped-Keeps n d p m k dpos ppos e)
      (scaled-Keeps fuel (2 * n) d (2 * p) m k dpos (omega arith) (doubled m p n e))
  where
    choose :
        (b : Bool) (x y : Double) → Keeps m d k x → Keeps m d k y → Keeps m d k (if b then x else y)
    choose true x y u v = u
    choose false x y u v = v

rounded-Keeps : (n d k : ℕ) → 0 < d → Keeps n d k (rounded n d)
unfolding rounded
rounded-Keeps n d k pos = scaled-Keeps 128 n d 1 n k pos (omega arith) (omega arith)

pub step_pow : (n f : ℕ) → n * 2 ^ suc f ≡ 2 * n * 2 ^ f
step_pow n f = grind arith

pub scaled-full :
    (fuel n d p : ℕ)
    → 0 < d
    → 4503599627370496 * d ≤ n * 2 ^ fuel
    → 4503599627370496 ≤ (scaled fuel n d p).num
unfolding scaled
scaled-full zero n d p pos h = nearest_down n d 4503599627370496 pos (omega (arith, h))
scaled-full (suc fuel) n d p pos h = elim (Bool-cases (leb (4503599627370496 * d) n)) [
  | inl enough ↦ rw enough (nearest_down n d 4503599627370496 pos (ground (arith, enough)))
  | inr more ↦ rw more (scaled-full fuel (2 * n) d (2 * p) pos (omega (arith, h, step_pow n fuel)))
]

scaled-below :
    (fuel n d p : ℕ) → 0 < d → n ≤ 9007199254740992 * d → (scaled fuel n d p).num ≤ 9007199254740992
unfolding scaled
scaled-below zero n d p pos h = nearest_up n d 9007199254740992 pos h
scaled-below (suc fuel) n d p pos h = elim (Bool-cases (leb (4503599627370496 * d) n)) [
  | inl enough ↦ rw enough (nearest_up n d 9007199254740992 pos h)
  | inr more ↦ rw more (scaled-below fuel (2 * n) d (2 * p) pos (ground (arith, more)))
]

-- The fuel is enough: a quotient below 2 ^ 53 of two numbers below 2 ^ 64 is brought to 53 digits.
rounded-digits :
    (n d : ℕ)
    → 0 < n
    → 0 < d
    → d < 18446744073709551616
    → n ≤ 9007199254740992 * d
    → (4503599627370496 ≤ (rounded n d).num) × ((rounded n d).num ≤ 9007199254740992)
unfolding rounded
rounded-digits n d npos dpos small below =
    (scaled-full 128 n d 1 dpos (omega arith), scaled-below 128 n d 1 dpos below)

-- a whole number bounds a rounded quotient and what is made of it
pub record IsBelow (k : ℕ) (x : Double) : Type 0 where
  pub den_pos : 0 < x.den
  pub below : x.num ≤ k * x.den

pub record IsAbove (k : ℕ) (x : Double) : Type 0 where
  pub den_pos : 0 < x.den
  pub above : k * x.den ≤ x.num

pub rounded-IsBelow : (n d k : ℕ) → 0 < d → n ≤ k * d → IsBelow k (rounded n d)
rounded-IsBelow n d k pos h =
    let r = rounded-Keeps n d k pos in record { den_pos = r.den_pos; below = r.up h }

pub rounded-IsAbove : (n d k : ℕ) → 0 < d → k * d ≤ n → IsAbove k (rounded n d)
rounded-IsAbove n d k pos h =
    let r = rounded-Keeps n d k pos in record { den_pos = r.den_pos; above = r.down h }

pub times-IsBelow : (x : Double) (k j : ℕ) → IsBelow k x → IsBelow (k * j) (times x j)
times-IsBelow x k j h =
    rounded-IsBelow (x.num * j) x.den (k * j) h.den_pos
      (omega (arith, times_le x.num (k * x.den) j h.below, times_swap k x.den j))

pub times-IsAbove : (x : Double) (k j : ℕ) → IsAbove k x → IsAbove (k * j) (times x j)
times-IsAbove x k j h =
    rounded-IsAbove (x.num * j) x.den (k * j) h.den_pos
      (omega (arith, times_le (k * x.den) x.num j h.above, times_swap k x.den j))

two_times : (k p : ℕ) → k * (2 * p) ≡ 2 * (k * p)
two_times k p = grind arith

pub round-IsBelow : (x : Double) (k : ℕ) → IsBelow k x → round x ≤ k
round-IsBelow x k h =
    let n = 2 * x.num + x.den in
    let less =
      (div-lt_iff_lt-mul {k = 2 * x.den} {x = n} {y = suc k} (omega (arith, h.den_pos))).1 in
    omega
      (arith, less (omega (arith, h.den_pos, h.below, two_times (suc k) x.den, suc_times k x.den)))

pub round-IsAbove : (x : Double) (k : ℕ) → IsAbove k x → k ≤ round x
round-IsAbove x k h =
    (le-div_iff_mul-le {k = 2 * x.den} {x = k} {y = 2 * x.num + x.den} (omega (arith, h.den_pos))).1
      (omega (arith, h.above, two_times k x.den))
