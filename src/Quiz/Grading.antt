-- ===== src/Quiz/Grading.antt =====
-- The scoring loop of SubmitAttempt and scorePercent (backend/internal/quiz/service.go). A score is
-- a whole number of tenths of a percent.
pub mod Counts
pub mod Score
use study_mate.Prelude.{
  ℕ, suc, Bool, true, false, Option, none, some, List, [], ◌∷◌, ◌++◌, ◌==◌, if◌then◌else◌, rounded,
  times, round,
}
use study_mate.Quiz.Model.{Answer}

-- attemptAnswerRow
pub record GradedRow : Type 0 where
  pub question_id : ℕ
  pub selected : Option ℕ
  pub is_correct : Option Bool

pub record Tally : Type 0 where
  pub correct : ℕ
  pub wrong : ℕ
  pub skipped : ℕ
  pub rows : List GradedRow

abbrev later_or : Option (Option ℕ) → Option (Option ℕ) → Option (Option ℕ)
later_or none earlier = earlier
later_or (some s) earlier = some s

-- selectedByQuestion: the map from the answers, where a later answer overwrites an earlier one
unfoldable pub selected_by_question : List Answer → ℕ → Option (Option ℕ)
selected_by_question [] q = none
selected_by_question (a ∷ rest) q =
    later_or (selected_by_question rest q)
      (if a.question_id == q then some a.selected_option_id else none)

-- the `switch` of the loop, on the answer found in the map and the correct option
unfoldable pub verdict : Option (Option ℕ) → Option ℕ → Option Bool
verdict none key = none
verdict (some none) key = none
verdict (some (some s)) none = some false
verdict (some (some s)) (some k) = some (s == k)

abbrev pub chosen : Option (Option ℕ) → Option ℕ
chosen none = none
chosen (some s) = s

abbrev pub add_verdict : Option Bool → GradedRow → Tally → Tally
add_verdict none row t = record t { skipped = suc t.skipped; rows = t.rows ++ row ∷ [] }
add_verdict (some true) row t = record t { correct = suc t.correct; rows = t.rows ++ row ∷ [] }
add_verdict (some false) row t = record t { wrong = suc t.wrong; rows = t.rows ++ row ∷ [] }

-- one round of the loop: a question and its correct option
unfoldable pub grade_question : List Answer → ℕ × Option ℕ → Tally → Tally
unfolding selected_by_question verdict
grade_question answers (q, key) t =
    let given = selected_by_question answers q in
    let mark = verdict given key in
    add_verdict mark (record { question_id = q; selected = chosen given; is_correct = mark }) t

unfoldable pub grade_from : List Answer → List (ℕ × Option ℕ) → Tally → Tally
grade_from answers [] t = t
grade_from answers (k ∷ rest) t = grade_from answers rest (grade_question answers k t)

abbrev pub no_marks : Tally
no_marks = record { correct = 0; wrong = 0; skipped = 0; rows = [] }

-- the loop over `orderedQuestions`
unfoldable pub grade : List Answer → List (ℕ × Option ℕ) → Tally
unfolding grade_from
grade answers key = grade_from answers key no_marks

-- scorePercent, in tenths of a percent, with each of its results rounded to a float64. The counts are
-- below 2 ^ 53, so that they are float64 themselves; the last quotient, by ten, only turns the tenths into percent.
unfoldable pub score_percent : ℕ → ℕ → ℕ
score_percent correct total =
    if total == 0 then 0 else round (times (times (rounded correct total) 100) 10)
