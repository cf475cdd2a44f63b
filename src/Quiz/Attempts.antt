-- ===== src/Quiz/Attempts.antt =====
-- CreateAttempt and the queries about attempts (backend/internal/quiz/service.go), and the validation
-- of a submission (models.go).
pub mod Opened
use study_mate.Prelude.{
  ℕ, suc, ◌+◌, Bool, not, ◌&&◌, Option, none, some, List, [], ◌∷◌, ◌==◌, leb, length, find, any,
  select, if◌then◌else◌,
}
use study_mate.Exec.{Result, ok, err, pure, raise, call, ◌>>=◌}
use study_mate.Quiz.Model.{
  in_progress, is_in_progress, is_draft, QuizRow, AttemptRow, Store, Error, database,
  quiz_not_found, attempt_not_found, answers_required, invalid_question_id, duplicate_question_id,
  Quiz, Answer, Attempt, time_limit_for_questions,
}

-- the loop of Validate: ids are positive and none comes twice
unfoldable pub check_answers : List ℕ → List Answer → Result Error Unit
check_answers seen [] = ok tt
check_answers seen (a ∷ rest) =
    let checked = check_answers (a.question_id ∷ seen) rest in
    if a.question_id == 0
    then err invalid_question_id
    else if any (λ q. q == a.question_id) seen
    then err duplicate_question_id
    else checked

-- SubmitAttemptRequest.Validate; a missing array is `none`
unfoldable pub validate_submission : Option (List Answer) → Result Error Unit
unfolding check_answers
validate_submission none = err answers_required
validate_submission (some answers) = check_answers [] answers

abbrev pub or_missing : {A : Type 0} → Error → Option A → Result Error A
or_missing e none = err e
or_missing e (some a) = ok a

abbrev pub quiz_row : Store → ℕ → Option QuizRow
quiz_row s quiz_id = find (λ q. q.id == quiz_id) s.quizzes

-- SELECT status FROM quizzes WHERE id = $1
unfoldable pub select_quiz : ℕ → Quiz QuizRow
select_quiz quiz_id = call database λ s. (or_missing quiz_not_found (quiz_row s quiz_id), s)

-- SELECT COUNT(*) FROM quiz_questions WHERE quiz_id = $1
unfoldable pub count_questions : ℕ → Quiz ℕ
count_questions quiz_id =
    call database λ s. (ok (length (select (λ r. r.quiz_id == quiz_id) s.quiz_questions)), s)

-- quizQuestionCount
unfoldable pub quiz_question_count : ℕ → Quiz ℕ
unfolding select_quiz count_questions
quiz_question_count quiz_id = do
  total ← count_questions quiz_id
  if not (total == 0) then pure total else do row ← select_quiz quiz_id; pure row.total_questions

abbrev pub is_open_attempt : ℕ → ℕ → AttemptRow → Bool
is_open_attempt quiz_id user_id a =
    a.quiz_id == quiz_id && a.user_id == user_id && is_in_progress a.status

abbrev pub later_started : AttemptRow → Option AttemptRow → AttemptRow
later_started a none = a
later_started a (some b) = if leb b.started_at a.started_at then a else b

-- ORDER BY started_at DESC LIMIT 1
unfoldable pub latest_open : ℕ → ℕ → List AttemptRow → Option AttemptRow
latest_open quiz_id user_id [] = none
latest_open quiz_id user_id (a ∷ rest) =
    let later = latest_open quiz_id user_id rest in
    if is_open_attempt quiz_id user_id a then some (later_started a later) else later

unfoldable pub select_open_attempt : ℕ → ℕ → Quiz (Option AttemptRow)
select_open_attempt quiz_id user_id =
    call database λ s. (ok (latest_open quiz_id user_id s.attempts), s)

abbrev pub new_attempt : ℕ → ℕ → ℕ → ℕ → AttemptRow
new_attempt id quiz_id user_id started_at = record {
  id = id;
  quiz_id = quiz_id;
  user_id = user_id;
  status = in_progress;
  score = none;
  correct_count = 0;
  wrong_count = 0;
  skipped_count = 0;
  started_at = started_at;
  submitted_at = none;
}

-- INSERT INTO quiz_attempts ... RETURNING
unfoldable pub insert_attempt : ℕ → ℕ → ℕ → Quiz AttemptRow
insert_attempt quiz_id user_id started_at = call database λ s.
    let row = new_attempt s.next_id quiz_id user_id started_at in
    (ok row, record s { attempts = row ∷ s.attempts; next_id = suc s.next_id })

-- ExpiresAt = StartedAt + the time limit
unfoldable pub as_attempt : ℕ → AttemptRow → Attempt
as_attempt time_limit a = record {
  id = a.id;
  quiz_id = a.quiz_id;
  user_id = a.user_id;
  status = a.status;
  started_at = a.started_at;
  expires_at = a.started_at + time_limit;
}

-- a zero time stands for the clock
abbrev pub time_or : ℕ → Option ℕ → ℕ
time_or now none = now
time_or now (some t) = t

continue_or_insert : ℕ → ℕ → ℕ → Option AttemptRow → Quiz AttemptRow
continue_or_insert quiz_id user_id started_at (some a) = pure a
continue_or_insert quiz_id user_id started_at none = insert_attempt quiz_id user_id started_at

-- CreateAttempt
unfoldable pub create_attempt : ℕ → ℕ → ℕ → Option ℕ → Quiz Attempt
unfolding continue_or_insert
create_attempt now quiz_id user_id started_at = do
  quiz ← select_quiz quiz_id
  if is_draft quiz.status then raise quiz_not_found else do
    total ← quiz_question_count quiz_id
    let time_limit = time_limit_for_questions total
    existing ← select_open_attempt quiz_id user_id
    row ← continue_or_insert quiz_id user_id (time_or now started_at) existing
    pure (as_attempt time_limit row)

abbrev pub attempt_row : Store → ℕ → Option AttemptRow
attempt_row s attempt_id = find (λ a. a.id == attempt_id) s.attempts

-- SELECT ... FROM quiz_attempts WHERE id = $1 FOR UPDATE
unfoldable pub select_attempt : ℕ → Quiz AttemptRow
select_attempt attempt_id =
    call database λ s. (or_missing attempt_not_found (attempt_row s attempt_id), s)
