-- ===== src/Prelude/Doubles/Near.antt =====
-- How near a rounded result is: within one part in 2 ^ 53.
use Prim.Native.Nat.{ℕ, zero, suc, ◌+◌, ◌*◌, ◌/◌, ◌%◌, ◌^◌, ◌≤◌, ◌<◌}
use mathlib.Core.Path.{◌≡◌, ap}
use mathlib.Core.Logic.{◌⊎◌, inl, inr}
use native.Mathlib.Omega.{arith}
use native.Mathlib.Nat.{div-add-mod, mod-lt, div-mul-le_self, lt-div-mul-add}
use study_mate.Prelude.Tests.{Bool-cases, ltb, leb, ◌==◌}
use study_mate.Prelude.Doubles.{
  Double, nearest, round, rounded-IsAbove, scaled-full, scaled, rounded, times_le, doubled,
  step_pow,
}

nearest_choice :
    (n d : ℕ)
    → ((nearest n d ≡ n / d) × (2 * (n % d) ≤ d))
      ⊎ ((nearest n d ≡ suc (n / d)) × (d ≤ 2 * (n % d)))
unfolding nearest
nearest_choice n d = elim (Bool-cases (ltb (2 * (n % d)) d)) [
  | inl less ↦ inl (ground (arith, less), ground (arith, less))
  | inr least ↦ elim (Bool-cases (ltb d (2 * (n % d)))) [
    | inl more ↦ inr (ground (arith, least, more), ground (arith, more))
    | inr half ↦ elim (Bool-cases (n / d % 2 == 0)) [
      | inl even ↦ inl (ground (arith, least, half, even), ground (arith, least, half))
      | inr odd ↦ inr (ground (arith, least, half, odd), ground (arith, least, half))
    ]
  ]
]

suc_times' : (q d : ℕ) → suc q * d ≡ d * q + d
suc_times' q d = grind arith

flip : (q d : ℕ) → q * d ≡ d * q
flip q d = grind arith

-- the nearest whole number is at most a half away
nearest_half :
    (n d : ℕ) → 0 < d → (2 * (nearest n d * d) ≤ 2 * n + d) × (2 * n ≤ 2 * (nearest n d * d) + d)
nearest_half n d pos = elim (nearest_choice n d) [
  | inl (same, below) ↦
      let e = ap (λ m. m * d) same in
      (
        omega (arith, e, flip (n / d) d, div-add-mod n d, below),
        omega (arith, e, flip (n / d) d, div-add-mod n d, below),
      )
  | inr (same, above) ↦
      let e = ap (λ m. m * d) same in
      (
        omega (arith, e, suc_times' (n / d) d, div-add-mod n d, above, mod-lt n {m = d} pos),
        omega (arith, e, suc_times' (n / d) d, div-add-mod n d, above, mod-lt n {m = d} pos),
      )
]

-- a rounded number against the fraction `n / d`
pub record IsNear (n d : ℕ) (x : Double) : Type 0 where
  pub up : 9007199254740992 * (x.num * d) ≤ 9007199254740993 * (n * x.den)
  pub down : 9007199254740991 * (n * x.den) ≤ 9007199254740992 * (x.num * d)

stopped :
    (m n d p : ℕ)
    → 0 < d
    → m * p ≡ n
    → 4503599627370496 * d ≤ n
    → IsNear m d (record { num = nearest n d; den = p })
stopped m n d p pos e h =
    let half = nearest_half n d pos in
    record { up = omega (arith, e, h, half.0); down = omega (arith, e, h, half.1) }

scaled-IsNear :
    (fuel m n d p : ℕ)
    → 0 < d
    → m * p ≡ n
    → 4503599627370496 * d ≤ n * 2 ^ fuel
    → IsNear m d (scaled fuel n d p)
unfolding scaled
scaled-IsNear zero m n d p pos e h = stopped m n d p pos e (omega (arith, h))
scaled-IsNear (suc fuel) m n d p pos e h = elim (Bool-cases (leb (4503599627370496 * d) n)) [
  | inl enough ↦ rw enough (stopped m n d p pos e (ground (arith, enough)))
  | inr more ↦ rw more (
      scaled-IsNear fuel m (2 * n) d (2 * p) pos (doubled m p n e)
        (omega (arith, h, step_pow n fuel)))
]

pub cancel : (a b c : ℕ) → 0 < c → a * c ≤ b * c → a ≤ b
cancel a b c pos h = grind (arith, pos, h)

left : (A A' m' d p : ℕ) → A' * (m' * p) * (A * d) ≡ A * A' * (m' * d) * p
left A A' m' d p = grind arith

middle : (A B' m d k p' : ℕ) → B' * (m * k * p') * (A * d) ≡ A * (m * d) * (B' * k * p')
middle A B' m d k p' = grind arith

right : (B B' n p k p' : ℕ) → B * (n * p) * (B' * k * p') ≡ B * B' * (n * k * p') * p
right B B' n p k p' = grind arith

pub compose_up :
    (A B A' B' m d n p m' p' k : ℕ)
    → 0 < p
    → A * (m * d) ≤ B * (n * p)
    → A' * (m' * p) ≤ B' * (m * k * p')
    → A * A' * (m' * d) ≤ B * B' * (n * k * p')
compose_up A B A' B' m d n p m' p' k pos h h' =
    cancel (A * A' * (m' * d)) (B * B' * (n * k * p')) p pos (
      omega (
        arith,
        times_le (A' * (m' * p)) (B' * (m * k * p')) (A * d) h',
        times_le (A * (m * d)) (B * (n * p)) (B' * k * p') h,
        left A A' m' d p,
        middle A B' m d k p',
        right B B' n p k p',
      ))

pub compose_down :
    (A B A' B' m d n p m' p' k : ℕ)
    → 0 < p
    → B * (n * p) ≤ A * (m * d)
    → B' * (m * k * p') ≤ A' * (m' * p)
    → B * B' * (n * k * p') ≤ A * A' * (m' * d)
compose_down A B A' B' m d n p m' p' k pos h h' =
    cancel (B * B' * (n * k * p')) (A * A' * (m' * d)) p pos (
      omega (
        arith,
        times_le (B' * (m * k * p')) (A' * (m' * p)) (A * d) h',
        times_le (B * (n * p)) (A * (m * d)) (B' * k * p') h,
        left A A' m' d p,
        middle A B' m d k p',
        right B B' n p k p',
      ))

pow_pos : (fuel p : ℕ) → p ≤ p * 2 ^ fuel
pow_pos zero p = omega arith
pow_pos (suc fuel) p = omega (arith, pow_pos fuel p, step_pow p fuel)

den_bound : (fuel n d p : ℕ) → (scaled fuel n d p).den ≤ p * 2 ^ fuel
unfolding scaled
den_bound zero n d p = omega arith
den_bound (suc fuel) n d p = elim (Bool-cases (leb (4503599627370496 * d) n)) [
  | inl enough ↦ rw enough (omega (arith, pow_pos fuel p, step_pow p fuel))
  | inr more ↦ rw more (omega (arith, den_bound fuel (2 * n) d (2 * p), step_pow p fuel))
]

grow : (n k : ℕ) → 0 < k → n ≤ n * k
grow n k pos = grind (arith, pos)

pub rounded-IsNear :
    (n d : ℕ) → 0 < d → 4503599627370496 * d ≤ n * 2 ^ 128 → IsNear n d (rounded n d)
unfolding rounded
rounded-IsNear n d pos h = scaled-IsNear 128 n n d 1 pos (omega arith) h

-- a result that can be rounded again without running out of doublings
pub record IsFull (x : Double) : Type 0 where
  pub den_pos : 0 < x.den
  pub num_big : 4503599627370496 ≤ x.num
  pub den_small : x.den ≤ 2 ^ 128

pub rounded-IsFull : (n d : ℕ) → 0 < d → 4503599627370496 * d ≤ n * 2 ^ 128 → IsFull (rounded n d)
unfolding rounded
rounded-IsFull n d pos h = record {
  den_pos = (rounded-IsAbove n d 0 pos (omega arith)).den_pos;
  num_big = scaled-full 128 n d 1 pos h;
  den_small = omega (arith, den_bound 128 n d 1);
}

pub enough :
    (x : Double) (k : ℕ) → IsFull x → 0 < k → 4503599627370496 * x.den ≤ x.num * k * 2 ^ 128
enough x k f pos =
    let num_big = f.num_big in
    let den_small = f.den_small in
    omega
      (arith, times_le 4503599627370496 (x.num * k) 1 (omega (arith, num_big, grow x.num k pos)))

-- math.Round is at most a half away
pub round_half :
    (x : Double)
    → 0 < x.den
    → (round x * (2 * x.den) ≤ 2 * x.num + x.den)
      × (2 * x.num + x.den < round x * (2 * x.den) + 2 * x.den)
round_half x pos =
    (div-mul-le_self (2 * x.num + x.den) (2 * x.den), lt-div-mul-add (omega (arith, pos)))
