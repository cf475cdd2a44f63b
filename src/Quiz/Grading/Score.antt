-- ===== src/Quiz/Grading/Score.antt =====
-- The score of an attempt (scorePercent in backend/internal/quiz/service.go).
use study_mate.Prelude.{
  zero, suc, tenths-near, ℕ, suc, ◌+◌, ◌*◌, ◌≡◌, ◌≤◌, ◌<◌, arith, round, times, rounded,
  rounded-IsBelow, rounded-IsAbove, times-IsBelow, times-IsAbove, round-IsBelow, round-IsAbove,
}
use study_mate.Quiz.Grading.{score_percent}

score_percent_pos :
    (correct total : ℕ)
    → 0 < total
    → score_percent correct total ≡ round (times (times (rounded correct total) 100) 10)
unfolding score_percent
score_percent_pos correct total h = ground arith

score_at_most :
    (correct total k : ℕ)
    → 0 < total
    → correct ≤ k * total
    → score_percent correct total ≤ k * 100 * 10
score_at_most correct total k h below =
    let quotient = rounded correct total in
    rw (score_percent_pos correct total h) (
      round-IsBelow (times (times quotient 100) 10) (k * 100 * 10) (
        times-IsBelow (times quotient 100) (k * 100) 10
          (times-IsBelow quotient k 100 (rounded-IsBelow correct total k h below))))

score_at_least :
    (correct total k : ℕ)
    → 0 < total
    → k * total ≤ correct
    → k * 100 * 10 ≤ score_percent correct total
score_at_least correct total k h above =
    let quotient = rounded correct total in
    rw (score_percent_pos correct total h) (
      round-IsAbove (times (times quotient 100) 10) (k * 100 * 10) (
        times-IsAbove (times quotient 100) (k * 100) 10
          (times-IsAbove quotient k 100 (rounded-IsAbove correct total k h above))))

-- the score is near `correct / total`, in tenths of a percent: within half of one and a part in 10 ^ 9
abbrev pub IsNear : ℕ → ℕ → ℕ → Type 0
IsNear correct total score =
    (1000000000 * (2 * total * score) ≤ 1000000000 * (2000 * correct + total) + total)
    × (1000000000 * (2000 * correct) ≤ 1000000000 * (2 * total * score + total) + total)

score_percent-IsNear :
    (correct total : ℕ)
    → correct ≤ total
    → 0 < total
    → total < 18446744073709551616
    → IsNear correct total (score_percent correct total)
score_percent-IsNear zero total k h small =
    let none_right : score_percent 0 total ≡ 0 =
      omega (arith, score_at_most 0 total 0 h (omega arith)) in
    rw none_right (omega arith, omega arith)
score_percent-IsNear (suc c) total k h small =
    rw (score_percent_pos (suc c) total h) (tenths-near (suc c) total (omega arith) k small)

-- With at least one question, fewer than 2 ^ 64, and no more correct answers than questions, the score is
-- within half a tenth of a percent, and a part in 10 ^ 9 of one, of the exact share of correct answers.
-- It is at most 100.0 percent, exactly that when every answer is correct, and 0 when none is.
pub score_percent-range :
    (correct total : ℕ)
    → 0 < total
    → total < 18446744073709551616
    → correct ≤ total
    → IsNear correct total (score_percent correct total)
      × (score_percent correct total ≤ 1000)
      × (score_percent total total ≡ 1000)
      × (score_percent 0 total ≡ 0)
score_percent-range correct total h small k = (
  score_percent-IsNear correct total k h small,
  score_at_most correct total 1 h (omega (arith, k)),
  omega (
    arith,
    score_at_most total total 1 h (omega arith),
    score_at_least total total 1 h (omega arith),
  ),
  omega (arith, score_at_most 0 total 0 h (omega arith)),
)
