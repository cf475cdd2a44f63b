-- ===== src/Quiz/Review.antt =====
-- GetReview and GetUserReports (backend/internal/quiz/service.go).
pub mod Marked
use study_mate.Prelude.{
  ℕ, zero, suc, ◌-◌, ◌*◌, String, Bool, true, false, not, ◌&&◌, Option, none, some, List, [], ◌∷◌,
  ◌++◌, map, ◌==◌, leb, length, find, select, take, if◌then◌else◌,
}
use study_mate.Prelude.Integer.{ℤ, is_positive, to_nat}
use study_mate.Exec.{ok, pure, raise, call, ◌>>=◌}
use study_mate.Quiz.Model.{
  ReviewStatus, correct, wrong, skipped, is_in_progress, QuestionRow, OptionRow, AttemptRow,
  AttemptAnswerRow, QuizRow, Store, database, attempt_forbidden, attempt_not_done, Quiz,
}
use study_mate.Quiz.Queries.{questions_of, is_key_of, option_id, option_text, explanation_of}
use study_mate.Quiz.Attempts.{select_attempt, quiz_row}
use study_mate.Quiz.Submit.{or_zero}

pub record ReviewQuestion : Type 0 where
  pub id : ℕ
  pub text : String
  pub your_answer : Option ℕ
  pub your_answer_text : String
  pub correct_answer : Option ℕ
  pub correct_answer_text : String
  pub is_correct : Bool
  pub status : ReviewStatus
  pub explanation : String

pub record ReviewDetail : Type 0 where
  pub score : ℕ
  pub questions : List ReviewQuestion

-- the `switch` on the stored answer
unfoldable pub review_status : Option ℕ → Option Bool → ReviewStatus
review_status none mark = skipped
review_status (some o) (some true) = correct
review_status (some o) (some false) = wrong
review_status (some o) none = wrong

abbrev pub is_correct_status : ReviewStatus → Bool
is_correct_status correct = true
is_correct_status wrong = false
is_correct_status skipped = false

-- (SELECT o.option_text FROM question_options o WHERE o.id = aa.selected_option_id)
abbrev pub text_of : List OptionRow → Option ℕ → String
text_of os none = ""
text_of os (some id) = option_text (find (λ o. o.id == id) os)

unfoldable pub review_question : Store → QuestionRow → Option ℕ → Option Bool → ReviewQuestion
unfolding review_status
review_question s q selected mark =
    let key = find (is_key_of q.id) s.options in
    let status = review_status selected mark in
    record {
      id = q.id;
      text = q.question_text;
      your_answer = selected;
      your_answer_text = text_of s.options selected;
      correct_answer = option_id key;
      correct_answer_text = option_text key;
      is_correct = is_correct_status status;
      status = status;
      explanation = explanation_of s q.id;
    }

-- LEFT JOIN quiz_attempt_answers: one row for each answer to the question, or one without an answer
unfoldable pub answered_question : Store → QuestionRow → List AttemptAnswerRow → List ReviewQuestion
unfolding review_question
answered_question s q [] = review_question s q none none ∷ []
answered_question s q (a ∷ rest) =
    map (λ (x : AttemptAnswerRow). review_question s q x.selected_option_id x.is_correct) (a ∷ rest)

unfoldable pub review_rows : Store → ℕ → List QuestionRow → List ReviewQuestion
unfolding answered_question
review_rows s attempt_id [] = []
review_rows s attempt_id (q ∷ rest) =
    answered_question s q
      (select (λ a. a.question_id == q.id && a.attempt_id == attempt_id) s.attempt_answers)
    ++ review_rows s attempt_id rest

unfoldable pub select_review : ℕ → ℕ → Quiz (List ReviewQuestion)
select_review quiz_id attempt_id =
    call database λ s. (ok (review_rows s attempt_id (questions_of s quiz_id)), s)

-- GetReview
unfoldable pub get_review : ℕ → ℕ → Quiz ReviewDetail
unfolding select_review
get_review attempt_id user_id = do
  a ← select_attempt attempt_id
  if not (a.user_id == user_id)
      then raise attempt_forbidden
      else if is_in_progress a.status
      then raise attempt_not_done
      else (do
        questions ← select_review a.quiz_id attempt_id
        pure (record { score = or_zero a.score; questions = questions }))

pub record ReportItem : Type 0 where
  pub attempt_id : ℕ
  pub quiz_id : ℕ
  pub quiz_title : String
  pub score : ℕ
  pub completed_at : Option ℕ  -- a missing instant is Go's zero time

pub record ReportsPage : Type 0 where
  pub reports : List ReportItem
  pub total : ℕ
  pub page : ℕ

abbrev pub is_report_of : ℕ → AttemptRow → Bool
is_report_of user_id a = a.user_id == user_id && not (is_in_progress a.status)

-- JOIN quizzes q ON q.id = a.quiz_id
abbrev report_item : AttemptRow → Option QuizRow → List ReportItem
report_item a none = []
report_item a (some q) =
    record {
      attempt_id = a.id;
      quiz_id = a.quiz_id;
      quiz_title = q.title;
      score = or_zero a.score;
      completed_at = a.submitted_at;
    }
    ∷ []

unfoldable pub report_items : Store → List AttemptRow → List ReportItem
report_items s [] = []
report_items s (a ∷ rest) = report_item a (quiz_row s a.quiz_id) ++ report_items s rest

-- ORDER BY a.submitted_at DESC NULLS LAST
abbrev pub no_earlier : Option ℕ → Option ℕ → Bool
no_earlier a none = true
no_earlier none (some b) = false
no_earlier (some a) (some b) = leb b a

unfoldable pub insert_report_item : ReportItem → List ReportItem → List ReportItem
insert_report_item r [] = r ∷ []
insert_report_item r (q ∷ rest) =
    if no_earlier r.completed_at q.completed_at then r ∷ q ∷ rest else q ∷ insert_report_item r rest

unfoldable pub sort_items : List ReportItem → List ReportItem
unfolding insert_report_item
sort_items [] = []
sort_items (r ∷ rest) = insert_report_item r (sort_items rest)

abbrev pub drop {ℓ} : {A : Type ℓ} → ℕ → List A → List A
drop zero xs = xs
drop (suc n) [] = []
drop (suc n) (x ∷ xs) = drop n xs

-- every completed attempt of a user, the latest submission first
unfoldable pub reports_of : Store → ℕ → List ReportItem
unfolding sort_items report_items
reports_of s user_id = sort_items (report_items s (select (is_report_of user_id) s.attempts))

unfoldable pub page_or_first : ℤ → ℕ
page_or_first page = if is_positive page then to_nat page else 1

unfoldable pub limit_or_ten : ℤ → ℕ
limit_or_ten limit = if is_positive limit && leb (to_nat limit) 100 then to_nat limit else 10

unfoldable pub count_reports : ℕ → Quiz ℕ
count_reports user_id =
    call database λ s. (ok (length (select (is_report_of user_id) s.attempts)), s)

-- LIMIT $3 OFFSET $4
unfoldable pub select_reports : ℕ → ℕ → ℕ → Quiz (List ReportItem)
select_reports user_id limit offset =
    call database λ s. (ok (take limit (drop offset (reports_of s user_id))), s)

-- GetUserReports
unfoldable pub get_user_reports : ℕ → ℤ → ℤ → Quiz ReportsPage
unfolding page_or_first limit_or_ten count_reports select_reports
get_user_reports user_id page limit = do
  let p = page_or_first page
  let l = limit_or_ten limit
  total ← count_reports user_id
  items ← select_reports user_id l ((p - 1) * l)
  pure (record { reports = items; total = total; page = p })
