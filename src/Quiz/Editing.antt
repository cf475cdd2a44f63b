-- ===== src/Quiz/Editing.antt =====
-- GetDraft (backend/internal/quiz/review.go): the draft of a scanned exam as its reviewer sees it.
pub mod Owned
use study_mate.Prelude.{
  ℕ, String, Bool, false, ◌&&◌, Option, none, some, List, map, ◌==◌, length, any, select,
}
use Prim.Native.Char.{Char}
use study_mate.Exec.{ok, pure, call, guard, ◌>>=◌, ◌>>◌}
use study_mate.Quiz.Model.{
  QuizRow, QuizStatus, AnswerStatus, is_unknown, OptionRow, Store, database, quiz_forbidden, Quiz,
}
use study_mate.Quiz.Queries.{explanation_of}
use study_mate.Quiz.Attempts.{select_quiz}
use study_mate.Quiz.Listing.{Listed, list_questions}
use study_mate.Quiz.Drafts.{Language}

pub record ExplainRequest : Type 0 where
  pub question_text : String
  pub question_type : String
  pub options : List (String × String)
  pub correct_label : String
  pub correct_text : String
  pub language : Language

-- what the service gets from outside: the database's order of labels, unicode.IsLetter, and the
-- explainer, if there is one, whose reply is missing when it fails
pub record Env : Type 0 where
  pub label_le : String → String → Bool
  pub is_letter : Char → Bool
  pub explainer : Option (ExplainRequest → Option String)

pub record DraftOption : Type 0 where
  pub id : ℕ
  pub label : String
  pub text : String
  pub is_correct : Bool

pub record DraftQuestion : Type 0 where
  pub id : ℕ
  pub text : String
  pub question_type : String
  pub answer_status : AnswerStatus
  pub explanation : String
  pub options : List DraftOption

pub record DraftDetail : Type 0 where
  pub id : ℕ
  pub title : String
  pub status : QuizStatus
  pub total_questions : ℕ
  pub needs_answer_count : ℕ
  pub questions : List DraftQuestion

-- EXISTS(SELECT 1 FROM scan_jobs WHERE quiz_id = $1 AND user_id = $2)
abbrev pub is_some_id : ℕ → Option ℕ → Bool
is_some_id n none = false
is_some_id n (some m) = m == n

abbrev pub owns : Store → ℕ → ℕ → Bool
owns s quiz_id user_id = any (λ j. is_some_id quiz_id j.quiz_id && j.user_id == user_id) s.scan_jobs

-- ownsQuiz
unfoldable pub owns_quiz : ℕ → ℕ → Quiz Bool
owns_quiz quiz_id user_id = call database λ s. (ok (owns s quiz_id user_id), s)

abbrev pub draft_option : OptionRow → DraftOption
draft_option o = record {
  id = o.id;
  label = o.option_label;
  text = o.option_text;
  is_correct = o.is_correct;
}

abbrev pub draft_question : (ℕ → String) → Listed → DraftQuestion
draft_question explained q = record {
  id = q.row.id;
  text = q.row.question_text;
  question_type = q.row.question_type;
  answer_status = q.row.answer_status;
  explanation = explained q.row.id;
  options = map draft_option q.options;
}

-- the explanations, which the query of the questions brings along
unfoldable pub select_explanations : Quiz (ℕ → String)
select_explanations w = (ok (explanation_of w.store), w)

unfoldable pub needs_answer : List DraftQuestion → ℕ
needs_answer qs = length (select (λ q. is_unknown q.answer_status) qs)

-- the questions with their options, and the detail that holds them
unfoldable pub list_draft : Env → QuizRow → (ℕ → String) → Quiz DraftDetail
unfolding needs_answer
list_draft env quiz explained = do
  listed ← list_questions env.label_le quiz.id
  let questions = map (draft_question explained) listed
  pure (record {
    id = quiz.id;
    title = quiz.title;
    status = quiz.status;
    total_questions = quiz.total_questions;
    needs_answer_count = needs_answer questions;
    questions = questions;
  })

-- GetDraft
unfoldable pub get_draft : Env → ℕ → ℕ → Quiz DraftDetail
unfolding owns_quiz select_explanations list_draft
get_draft env quiz_id user_id = do
  own ← owns_quiz quiz_id user_id
  guard own quiz_forbidden
  quiz ← select_quiz quiz_id
  explained ← select_explanations
  list_draft env quiz explained
