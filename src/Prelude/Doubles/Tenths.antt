-- ===== src/Prelude/Doubles/Tenths.antt =====
-- A quotient in tenths of a percent, computed as float64 computes it.
use Prim.Native.Nat.{ℕ, ◌+◌, ◌*◌, ◌≤◌, ◌<◌}
use mathlib.Core.Path.{◌≡◌}
use native.Mathlib.Omega.{arith}
use study_mate.Prelude.Doubles.{Double, times, round, rounded, times_le}
use study_mate.Prelude.Doubles.Near.{
  IsNear, rounded-IsNear, IsFull, rounded-IsFull, enough, round_half, compose_up, compose_down,
  cancel,
}

product_a : (r p t : ℕ) → r * (2 * p) * t ≡ 2 * (r * t * p)
product_a r p t = grind arith

product_b : (m p t : ℕ) → (2 * m + p) * t ≡ 2 * (m * t) + t * p
product_b m p t = grind arith

product_c : (c p : ℕ) → c * 100 * 10 * p ≡ 1000 * (c * p)
product_c c p = grind arith

product_d : (r p t : ℕ) → (r * (2 * p) + 2 * p) * t ≡ 2 * (r * t * p) + 2 * (t * p)
product_d r p t = grind arith

product_e : (r p t : ℕ) → 1000000000 * (2 * t * r) * p ≡ 2000000000 * (r * t * p)
product_e r p t = grind arith

product_f :
    (c p t : ℕ)
    → (1000000000 * (2000 * c + t) + t) * p ≡ 2000000000000 * (c * p) + 1000000001 * (t * p)
product_f c p t = grind arith

product_g :
    (r p t : ℕ)
    → (1000000000 * (2 * t * r + t) + t) * p ≡ 2000000000 * (r * t * p) + 1000000001 * (t * p)
product_g r p t = grind arith

product_h : (c p : ℕ) → 1000000000 * (2000 * c) * p ≡ 2000000000000 * (c * p)
product_h c p = grind arith

final_up :
    (r m p t c : ℕ)
    → 0 < p
    → c ≤ t
    → 9007199254740992 * 9007199254740992 * 9007199254740992 * (m * t)
      ≤ 9007199254740993 * 9007199254740993 * 9007199254740993 * (c * 100 * 10 * p)
    → r * (2 * p) ≤ 2 * m + p
    → 1000000000 * (2 * t * r) ≤ 1000000000 * (2000 * c + t) + t
final_up r m p t c pos below near half =
    cancel (1000000000 * (2 * t * r)) (1000000000 * (2000 * c + t) + t) p pos (
      omega (
        arith,
        near,
        times_le (r * (2 * p)) (2 * m + p) t half,
        times_le c t p below,
        product_a r p t,
        product_b m p t,
        product_c c p,
        product_e r p t,
        product_f c p t,
      ))

final_down :
    (r m p t c : ℕ)
    → 0 < p
    → c ≤ t
    → 9007199254740991 * 9007199254740991 * 9007199254740991 * (c * 100 * 10 * p)
      ≤ 9007199254740992 * 9007199254740992 * 9007199254740992 * (m * t)
    → 2 * m + p ≤ r * (2 * p) + 2 * p
    → 1000000000 * (2000 * c) ≤ 1000000000 * (2 * t * r + t) + t
final_down r m p t c pos below near half =
    cancel (1000000000 * (2000 * c)) (1000000000 * (2 * t * r + t) + t) p pos (
      omega (
        arith,
        near,
        times_le (2 * m + p) (r * (2 * p) + 2 * p) t half,
        times_le c t p below,
        product_d r p t,
        product_b m p t,
        product_c c p,
        product_g r p t,
        product_h c p,
      ))

module _ (c t : ℕ) (cpos : 0 < c) (tpos : 0 < t) (small : t < 18446744073709551616) where
  quotient : Double
  quotient = rounded c t

  percent : Double
  unfolding quotient
  percent = times quotient 100

  tenths : Double
  unfolding percent
  tenths = times percent 10

  quotient-IsFull : IsFull quotient
  unfolding quotient
  quotient-IsFull = rounded-IsFull c t tpos (omega arith)

  percent-IsFull : IsFull percent
  unfolding percent
  percent-IsFull =
      rounded-IsFull (quotient.num * 100) quotient.den quotient-IsFull.den_pos
        (enough quotient 100 quotient-IsFull (omega arith))

  tenths-IsFull : IsFull tenths
  unfolding tenths
  tenths-IsFull =
      rounded-IsFull (percent.num * 10) percent.den percent-IsFull.den_pos
        (enough percent 10 percent-IsFull (omega arith))

  quotient-IsNear : IsNear c t quotient
  unfolding quotient
  quotient-IsNear = rounded-IsNear c t tpos (omega arith)

  percent-IsNear : IsNear (quotient.num * 100) quotient.den percent
  unfolding percent
  percent-IsNear =
      rounded-IsNear (quotient.num * 100) quotient.den quotient-IsFull.den_pos
        (enough quotient 100 quotient-IsFull (omega arith))

  tenths-IsNear : IsNear (percent.num * 10) percent.den tenths
  unfolding tenths
  tenths-IsNear =
      rounded-IsNear (percent.num * 10) percent.den percent-IsFull.den_pos
        (enough percent 10 percent-IsFull (omega arith))

  high : ℕ
  high = 9007199254740993

  low : ℕ
  low = 9007199254740991

  whole : ℕ
  whole = 9007199254740992

  all_up :
      whole * whole * whole * (tenths.num * t) ≤ high * high * high * (c * 100 * 10 * tenths.den)
  unfolding high whole
  all_up =
      compose_up (whole * whole) (high * high) whole high percent.num t (c * 100) percent.den
        tenths.num tenths.den 10 percent-IsFull.den_pos
        (compose_up whole high whole high quotient.num t c quotient.den percent.num percent.den 100
          quotient-IsFull.den_pos quotient-IsNear.up percent-IsNear.up)
        tenths-IsNear.up

  all_down :
      low * low * low * (c * 100 * 10 * tenths.den) ≤ whole * whole * whole * (tenths.num * t)
  unfolding low whole
  all_down =
      compose_down (whole * whole) (low * low) whole low percent.num t (c * 100) percent.den
        tenths.num tenths.den 10 percent-IsFull.den_pos
        (compose_down whole low whole low quotient.num t c quotient.den percent.num percent.den 100
          quotient-IsFull.den_pos quotient-IsNear.down percent-IsNear.down)
        tenths-IsNear.down

-- the quotient of two counts in tenths of a percent, within half a tenth and a part in 10 ^ 9 of it
pub tenths-near :
    (c t : ℕ)
    → 0 < c
    → c ≤ t
    → t < 18446744073709551616
    → let r = round (times (times (rounded c t) 100) 10) in
      (1000000000 * (2 * t * r) ≤ 1000000000 * (2000 * c + t) + t)
      × (1000000000 * (2000 * c) ≤ 1000000000 * (2 * t * r + t) + t)
unfolding tenths percent quotient high low whole
tenths-near c t cpos below small =
    let tpos : 0 < t = omega arith in
    let x = tenths c t cpos tpos small in
    let full = tenths-IsFull c t cpos tpos small in
    let half = round_half x full.den_pos in
    (
      final_up (round x) x.num x.den t c full.den_pos below (all_up c t cpos tpos small) half.0,
      final_down (round x) x.num x.den t c full.den_pos below (all_down c t cpos tpos small)
          (omega (arith, half.1)),
    )
