-- ===== src/Quiz/Listing.antt =====
-- GetQuiz (backend/internal/quiz/service.go), and the questions with their options that GetQuiz and
-- GetDraft list alike.
use study_mate.Prelude.{
  ℕ, String, Bool, not, ◌&&◌, ◌||◌, Option, none, some, List, [], ◌∷◌, ◌++◌, map, ◌==◌, ltb, length,
  any, select, if◌then◌else◌,
}
use study_mate.Exec.{ok, pure, raise, call, ◌>>=◌}
use study_mate.Quiz.Model.{
  is_draft, QuestionRow, OptionRow, QuizQuestionRow, Store, database, quiz_not_found, Quiz,
  time_limit_for_questions,
}
use study_mate.Quiz.Queries.{questions_of}
use study_mate.Quiz.Attempts.{select_quiz}

-- a question as it is collected, with its options so far
pub record Listed : Type 0 where
  pub row : QuestionRow
  pub options : List OptionRow

-- FROM question_options o JOIN quiz_questions qq ON ... WHERE qq.quiz_id = $1
unfoldable pub joined_options : List QuizQuestionRow → List OptionRow → List OptionRow
joined_options qqs [] = []
joined_options qqs (o ∷ rest) =
    map (λ (r : QuizQuestionRow). o) (select (λ r. r.question_id == o.question_id) qqs)
    ++ joined_options qqs rest

-- ORDER BY o.question_id, o.option_label ASC, with the order of labels of the database
abbrev before : (String → String → Bool) → OptionRow → OptionRow → Bool
before label_le a b =
    ltb a.question_id b.question_id
    || (a.question_id == b.question_id && label_le a.option_label b.option_label)

unfoldable pub insert_option_row :
    (String → String → Bool) → OptionRow → List OptionRow → List OptionRow
insert_option_row label_le o [] = o ∷ []
insert_option_row label_le o (p ∷ rest) =
    if before label_le o p then o ∷ p ∷ rest else p ∷ insert_option_row label_le o rest

unfoldable pub sort_options : (String → String → Bool) → List OptionRow → List OptionRow
unfolding insert_option_row
sort_options label_le [] = []
sort_options label_le (o ∷ rest) = insert_option_row label_le o (sort_options label_le rest)

unfoldable pub options_of : (String → String → Bool) → Store → ℕ → List OptionRow
unfolding joined_options sort_options
options_of label_le s quiz_id =
    sort_options label_le
      (joined_options (select (λ r. r.quiz_id == quiz_id) s.quiz_questions) s.options)

-- detail.Questions[idx].Options = append(...): the map holds the last index of a question
unfoldable pub add_option : OptionRow → List Listed → List Listed
add_option o [] = []
add_option o (q ∷ rest) =
    let others = add_option o rest in
    if q.row.id == o.question_id && not (any (λ r. r.row.id == o.question_id) rest)
    then record q { options = q.options ++ o ∷ [] } ∷ rest
    else q ∷ others

unfoldable pub add_options : List OptionRow → List Listed → List Listed
unfolding add_option
add_options [] qs = qs
add_options (o ∷ rest) qs = add_options rest (add_option o qs)

abbrev pub unfilled : QuestionRow → Listed
unfilled q = record { row = q; options = [] }

-- the queries for the questions and, if there are any, for their options
unfoldable pub select_questions : ℕ → Quiz (List QuestionRow)
select_questions quiz_id = call database λ s. (ok (questions_of s quiz_id), s)

unfoldable pub select_options : (String → String → Bool) → ℕ → Quiz (List OptionRow)
select_options label_le quiz_id = call database λ s. (ok (options_of label_le s quiz_id), s)

unfoldable pub fill_options : (String → String → Bool) → ℕ → List QuestionRow → Quiz (List Listed)
unfolding select_options add_options
fill_options label_le quiz_id [] = pure []
fill_options label_le quiz_id (q ∷ rest) = do
  options ← select_options label_le quiz_id
  pure (add_options options (map unfilled (q ∷ rest)))

unfoldable pub list_questions : (String → String → Bool) → ℕ → Quiz (List Listed)
unfolding select_questions fill_options
list_questions label_le quiz_id = do
  questions ← select_questions quiz_id
  fill_options label_le quiz_id questions

-- QuizDetailOption, QuizDetailQuestion and QuizDetail: nothing in them tells the correct option
pub record QuizDetailOption : Type 0 where
  pub id : ℕ
  pub label : String
  pub text : String

pub record QuizDetailQuestion : Type 0 where
  pub id : ℕ
  pub text : String
  pub question_type : String
  pub options : List QuizDetailOption

pub record QuizDetail : Type 0 where
  pub id : ℕ
  pub title : String
  pub subject : String
  pub board : String
  pub total_questions : ℕ
  pub time_limit : ℕ
  pub questions : List QuizDetailQuestion

unfoldable pub shown_option : OptionRow → QuizDetailOption
shown_option o = record { id = o.id; label = o.option_label; text = o.option_text }

unfoldable pub shown_question : Listed → QuizDetailQuestion
unfolding shown_option
shown_question q = record {
  id = q.row.id;
  text = q.row.question_text;
  question_type = q.row.question_type;
  options = map shown_option q.options;
}

-- deref
abbrev pub deref : Option String → String
deref none = ""
deref (some s) = s

-- GetQuiz
unfoldable pub get_quiz : (String → String → Bool) → ℕ → Quiz QuizDetail
unfolding list_questions shown_question
get_quiz label_le quiz_id = do
  quiz ← select_quiz quiz_id
  if is_draft quiz.status then raise quiz_not_found else do
    listed ← list_questions label_le quiz_id
    let total = if quiz.total_questions == 0 then length listed else quiz.total_questions
    pure (record {
      id = quiz.id;
      title = quiz.title;
      subject = deref quiz.subject;
      board = deref quiz.board;
      total_questions = total;
      time_limit = time_limit_for_questions total;
      questions = map shown_question listed;
    })
