-- ===== src/Quiz/Submit.antt =====
-- SubmitAttempt and loadResult (backend/internal/quiz/service.go). The invalidation of the analytics
-- cache, which SubmitAttempt starts in the background after its commit, is left out.
pub mod Atomic
pub mod Refusals
pub mod Scored
use study_mate.Prelude.{
  ℕ, ◌+◌, ◌-◌, not, Option, none, some, List, [], ◌∷◌, ◌++◌, ◌==◌, length, find, any, update, map,
  if◌then◌else◌,
}
use study_mate.Exec.{ok, pure, raise, call, transaction, ◌>>=◌, ◌>>◌}
use study_mate.Quiz.Model.{
  completed, is_in_progress, QuestionRow, AttemptRow, AttemptAnswerRow, ReportRow, Store, database,
  attempt_forbidden, Quiz, Answer, AttemptResult,
}
use study_mate.Quiz.Grading.{GradedRow, Tally, grade, score_percent}
use study_mate.Quiz.Queries.{questions_of, is_key_of, option_id}
use study_mate.Quiz.Attempts.{select_attempt, time_or}

abbrev pub or_zero : Option ℕ → ℕ
or_zero none = 0
or_zero (some n) = n

-- seconds between the start and the submission, 0 if it is missing or before the start
abbrev pub seconds_taken : ℕ → Option ℕ → ℕ
seconds_taken started none = 0
seconds_taken started (some t) = t - started

unfoldable pub result_of : AttemptRow → AttemptResult
result_of a = record {
  attempt_id = a.id;
  score = or_zero a.score;
  correct_count = a.correct_count;
  wrong_count = a.wrong_count;
  skipped_count = a.skipped_count;
  total_questions = a.correct_count + a.wrong_count + a.skipped_count;
  time_taken = seconds_taken a.started_at a.submitted_at;
}

-- loadResult
unfoldable pub load_result : ℕ → Quiz AttemptResult
unfolding select_attempt result_of
load_result attempt_id = do row ← select_attempt attempt_id; pure (result_of row)

-- the correct option of each question of the quiz, in order
unfoldable pub answer_key : Store → ℕ → List (ℕ × Option ℕ)
answer_key s quiz_id =
    map (λ (q : QuestionRow). (q.id, option_id (find (is_key_of q.id) s.options)))
      (questions_of s quiz_id)

-- quizAnswerKey
unfoldable pub quiz_answer_key : ℕ → Quiz (List (ℕ × Option ℕ))
quiz_answer_key quiz_id = call database λ s. (ok (answer_key s quiz_id), s)

abbrev pub stored_answer : ℕ → ℕ → GradedRow → AttemptAnswerRow
stored_answer attempt_id answered_at r = record {
  attempt_id = attempt_id;
  question_id = r.question_id;
  selected_option_id = r.selected;
  is_correct = r.is_correct;
  answered_at = answered_at;
}

-- insertAttemptAnswers; no call is made for no rows. An answer that names an option that does not exist
-- breaks a foreign key: that insert is one of the calls that fail.
unfoldable pub insert_attempt_answers : ℕ → ℕ → List GradedRow → Quiz Unit
insert_attempt_answers attempt_id answered_at [] = pure tt
insert_attempt_answers attempt_id answered_at (r ∷ rs) = call database λ s. (
  ok tt,
  record s {
    attempt_answers = s.attempt_answers ++ map (stored_answer attempt_id answered_at) (r ∷ rs);
  },
)

abbrev pub scored : ℕ → ℕ → Tally → AttemptRow → AttemptRow
scored score submitted_at t a = record a {
  status = completed;
  score = some score;
  correct_count = t.correct;
  wrong_count = t.wrong;
  skipped_count = t.skipped;
  submitted_at = some submitted_at;
}

-- UPDATE quiz_attempts SET status = 'completed', ... WHERE id = $7
unfoldable pub complete_attempt : ℕ → ℕ → ℕ → Tally → Quiz Unit
complete_attempt attempt_id score submitted_at t = call database λ s. (
  ok tt,
  record s { attempts = update (λ a. a.id == attempt_id) (scored score submitted_at t) s.attempts },
)

-- INSERT INTO quiz_reports ... ON CONFLICT (attempt_id) DO NOTHING
unfoldable pub insert_report : ReportRow → Quiz Unit
insert_report r = call database λ s. (
  ok tt,
  if any (λ x. x.attempt_id == r.attempt_id) s.reports
      then s
      else record s { reports = r ∷ s.reports },
)

-- Begin and Commit, which may fail too
unfoldable pub begin : Quiz Unit
begin = call database λ s. (ok tt, s)

unfoldable pub commit : Quiz Unit
commit = call database λ s. (ok tt, s)

-- the rest of SubmitAttempt for an attempt in progress, up to its commit
unfoldable pub score_attempt : ℕ → AttemptRow → List Answer → Option ℕ → Quiz AttemptResult
score_attempt now a answers submitted_at = do
  key ← quiz_answer_key a.quiz_id
  let total = length key
  let t = grade answers key
  insert_attempt_answers a.id now t.rows
  let score = score_percent t.correct total
  let submitted = time_or now submitted_at
  complete_attempt a.id score submitted t
  insert_report (record {
    attempt_id = a.id;
    accuracy = score;
    correct_count = t.correct;
    wrong_count = t.wrong;
    skipped_count = t.skipped;
    total = total;
  })
  commit
  pure (record {
    attempt_id = a.id;
    score = score;
    correct_count = t.correct;
    wrong_count = t.wrong;
    skipped_count = t.skipped;
    total_questions = total;
    time_taken = submitted - a.started_at;
  })

-- the body of the transaction
unfoldable pub submit_body : ℕ → ℕ → ℕ → List Answer → Option ℕ → Quiz AttemptResult
submit_body now attempt_id user_id answers submitted_at = do
  begin
  a ← select_attempt attempt_id
  if not (a.user_id == user_id)
      then raise attempt_forbidden
      else if not (is_in_progress a.status)
      then (do result ← load_result attempt_id; commit; pure result)
      else score_attempt now a answers submitted_at

-- SubmitAttempt
unfoldable pub submit_attempt : ℕ → ℕ → ℕ → List Answer → Option ℕ → Quiz AttemptResult
submit_attempt now attempt_id user_id answers submitted_at =
    transaction (submit_body now attempt_id user_id answers submitted_at)
