-- ===== src/Quiz/Model.antt =====
-- The tables of the quiz service and the payloads of backend/internal/quiz/models.go. Instants are
-- seconds. A score is a whole number of tenths of a percent, as scorePercent rounds it.
use study_mate.Prelude.{ℕ, ◌*◌, String, Bool, true, false, Option, List, ◌==◌, if◌then◌else◌}
use study_mate.Exec.{Act}
use study_mate.Scan.Model.{JobStatus}

-- AttemptStatusInProgress, AttemptStatusCompleted
pub data AttemptStatus : Type 0 where
  in_progress completed : AttemptStatus

-- ai.QuizStatusDraft, ai.QuizStatusPublished
pub data QuizStatus : Type 0 where
  draft published : QuizStatus

-- ai.AnswerStatusSet, ai.AnswerStatusUnknown
pub data AnswerStatus : Type 0 where
  set unknown : AnswerStatus

-- answerStatusCorrect, answerStatusWrong, answerStatusSkipped
pub data ReviewStatus : Type 0 where
  correct wrong skipped : ReviewStatus

abbrev pub is_in_progress : AttemptStatus → Bool
is_in_progress in_progress = true
is_in_progress completed = false

abbrev pub is_draft : QuizStatus → Bool
is_draft draft = true
is_draft published = false

abbrev pub is_unknown : AnswerStatus → Bool
is_unknown unknown = true
is_unknown set = false

pub record QuizRow : Type 0 where
  pub id : ℕ
  pub title : String
  pub total_questions : ℕ
  pub status : QuizStatus
  pub subject : Option String  -- of the chapter's book
  pub board : Option String
  pub chapter_id : Option ℕ
  pub content_hash : Option String

pub record QuestionRow : Type 0 where
  pub id : ℕ
  pub question_text : String
  pub question_type : String
  pub answer_status : AnswerStatus
  pub chapter_id : Option ℕ
  pub content_hash : Option String

pub record OptionRow : Type 0 where
  pub id : ℕ
  pub question_id : ℕ
  pub option_label : String
  pub option_text : String
  pub is_correct : Bool

pub record ExplanationRow : Type 0 where
  pub id : ℕ
  pub question_id : ℕ
  pub explanation_text : String
  pub language : String

pub record QuizQuestionRow : Type 0 where
  pub quiz_id : ℕ
  pub question_id : ℕ
  pub order_no : ℕ

pub record AttemptRow : Type 0 where
  pub id : ℕ
  pub quiz_id : ℕ
  pub user_id : ℕ
  pub status : AttemptStatus
  pub score : Option ℕ
  pub correct_count : ℕ
  pub wrong_count : ℕ
  pub skipped_count : ℕ
  pub started_at : ℕ
  pub submitted_at : Option ℕ

pub record AttemptAnswerRow : Type 0 where
  pub attempt_id : ℕ
  pub question_id : ℕ
  pub selected_option_id : Option ℕ
  pub is_correct : Option Bool
  pub answered_at : ℕ

pub record ReportRow : Type 0 where
  pub attempt_id : ℕ
  pub accuracy : ℕ
  pub correct_count : ℕ  -- the numbers that the summary text prints
  pub wrong_count : ℕ
  pub skipped_count : ℕ
  pub total : ℕ

pub record ScanJobRow : Type 0 where
  pub id : ℕ
  pub quiz_id : Option ℕ
  pub user_id : ℕ
  pub status : JobStatus
  pub progress : ℕ

pub record Store : Type 0 where
  pub quizzes : List QuizRow
  pub quiz_questions : List QuizQuestionRow
  pub questions : List QuestionRow
  pub options : List OptionRow
  pub explanations : List ExplanationRow
  pub attempts : List AttemptRow
  pub attempt_answers : List AttemptAnswerRow
  pub reports : List ReportRow
  pub scan_jobs : List ScanJobRow
  pub next_id : ℕ

pub data Error : Type 0 where
  database quiz_not_found attempt_not_found attempt_forbidden attempt_not_done : Error
  quiz_forbidden quiz_not_draft answers_incomplete : Error
  answers_required invalid_question_id duplicate_question_id : Error
  draft_empty empty_text invalid_type option_count : Error

abbrev pub Quiz : Type 0 → Type 0
Quiz A = Act Store Error A

-- a submitted answer; the option is missing where the question was skipped
pub record Answer : Type 0 where
  pub question_id : ℕ
  pub selected_option_id : Option ℕ

pub record AttemptResult : Type 0 where
  pub attempt_id : ℕ
  pub score : ℕ
  pub correct_count : ℕ
  pub wrong_count : ℕ
  pub skipped_count : ℕ
  pub total_questions : ℕ
  pub time_taken : ℕ

pub record Attempt : Type 0 where
  pub id : ℕ
  pub quiz_id : ℕ
  pub user_id : ℕ
  pub status : AttemptStatus
  pub started_at : ℕ
  pub expires_at : ℕ

abbrev pub default_time_limit_per_question : ℕ
default_time_limit_per_question = 60

-- timeLimitForQuestions; the count of a query is never negative
unfoldable pub time_limit_for_questions : ℕ → ℕ
time_limit_for_questions total =
    if total == 0 then default_time_limit_per_question else total * default_time_limit_per_question
