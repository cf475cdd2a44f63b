-- ===== src/Practice/Shares.antt =====
-- The shares of perTopicAllocation (backend/internal/careergoals/adaptive/selector.go).
use study_mate.Prelude.{
  ℕ, zero, suc, ◌+◌, ◌-◌, ◌*◌, ◌/◌, ◌%◌, ◌≤◌, ◌≡◌, refl, sym, ap, subst, List, [], ◌∷◌, All, length,
  arith,
}
use study_mate.Practice.Selector.{topic_share, shares_from, zeros, per_topic_allocation}

abbrev pub sum : List ℕ → ℕ
sum [] = 0
sum (x ∷ xs) = x + sum xs

-- `rem - (i + n)` of the larger shares are still to come
sum-shares_from :
    (base rem i n : ℕ) → sum (shares_from base rem i n) + (rem - (i + n)) ≡ n * base + (rem - i)
unfolding shares_from
sum-shares_from base rem i zero = ground arith
sum-shares_from base rem i (suc n) = ground (arith, sum-shares_from base rem (suc i) n)

sum-zeros : (n : ℕ) → sum (zeros n) ≡ 0
unfolding zeros
sum-zeros zero = refl
sum-zeros (suc n) = ground (arith, sum-zeros n)

abbrev pub Balanced : ℕ → ℕ → List ℕ → Type 0
Balanced topics base shares =
    (length shares ≡ topics) × All (λ n. (base ≤ n) × (n ≤ suc base)) shares

topic_share-bounds :
    (base rem i : ℕ) → (base ≤ topic_share base rem i) × (topic_share base rem i ≤ suc base)
topic_share-bounds base rem i = (ground arith, ground arith)

shares_from-Balanced : (base rem i n : ℕ) → Balanced n base (shares_from base rem i n)
unfolding shares_from
shares_from-Balanced base rem i zero = (refl, tt)
shares_from-Balanced base rem i (suc n) =
    let rest = shares_from-Balanced base rem (suc i) n in
    (ap suc rest.0, (topic_share-bounds base rem i, rest.1))

zeros-Balanced : (n : ℕ) → Balanced n 0 (zeros n)
unfolding zeros
zeros-Balanced zero = (refl, tt)
zeros-Balanced (suc n) =
    let rest = zeros-Balanced n in (ap suc rest.0, ((ground arith, ground arith), rest.1))

nothing_to_share : (n : ℕ) → 0 / suc n ≡ 0
nothing_to_share n = omega arith

whole_shares : (m n : ℕ) → suc n * (m / suc n) + (m % suc n - 0) ≡ m
whole_shares m n = omega arith

none_to_come : (m n : ℕ) → m % suc n - (0 + suc n) ≡ 0
none_to_come m n = omega arith

some_to_share :
    (m n : ℕ)
    → per_topic_allocation (suc m) (suc n) ≡ shares_from (suc m / suc n) (suc m % suc n) 0 (suc n)
unfolding per_topic_allocation
some_to_share m n = ground arith

sum-all_shares : (m n : ℕ) → sum (shares_from (m / suc n) (m % suc n) 0 (suc n)) ≡ m
sum-all_shares m n =
    omega
      (arith, sum-shares_from (m / suc n) (m % suc n) 0 (suc n), whole_shares m n, none_to_come m n)

-- With one topic or more, perTopicAllocation gives each topic a share: the shares add up to the number
-- of questions to draw, and each is the quotient of that number by the number of topics or one more.
pub per_topic_allocation-Balanced :
    (weak_count topics : ℕ)
    → let shares = per_topic_allocation weak_count (suc topics) in
      (sum shares ≡ weak_count) × Balanced (suc topics) (weak_count / suc topics) shares
unfolding per_topic_allocation
per_topic_allocation-Balanced zero n = (
  sum-zeros (suc n),
  subst (λ b. Balanced (suc n) b (zeros (suc n))) (sym (nothing_to_share n))
      (zeros-Balanced (suc n)),
)
per_topic_allocation-Balanced (suc m) n =
    rw (some_to_share m n)
      (sum-all_shares (suc m) n, shares_from-Balanced (suc m / suc n) (suc m % suc n) 0 (suc n))
