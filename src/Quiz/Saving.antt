-- ===== src/Quiz/Saving.antt =====
-- SaveDraft (backend/internal/quiz/review.go). A statement of the database that breaks the unique key
-- of quiz_questions fails; deleting questions deletes what refers to them, as the schema says
-- (backend/migrations/0003_reconciled_schema.sql).
pub mod Inserted
pub mod Replaced
pub mod Rows
use study_mate.Prelude.{
  str_eq, ℕ, suc, String, Bool, not, ◌&&◌, Option, none, some, List, [], ◌∷◌, ◌++◌, map, ◌==◌,
  length, any, select, update, is_blank, if◌then◌else◌,
}
use study_mate.Exec.{ok, err, pure, lift, call, transaction, guard, ◌>>=◌, ◌>>◌}
use study_mate.Quiz.Model.{
  QuestionRow, ExplanationRow, OptionRow, is_draft, OptionRow, QuizQuestionRow, QuizRow,
  AttemptAnswerRow, Store, database, quiz_forbidden, quiz_not_draft, Quiz,
}
use study_mate.Quiz.Attempts.{select_quiz}
use study_mate.Quiz.Submit.{begin, commit}
use study_mate.Quiz.Drafts.{
  OptionInput, QuestionInput, NormalizedQuestion, validate_draft_input, detect_content_language,
  explanation_db_code,
}
use study_mate.Quiz.Editing.{Env, DraftDetail, is_some_id, owns_quiz, get_draft}

-- the answers of attempts lose the options that go
abbrev pub is_in : List ℕ → ℕ → Bool
is_in ids id = any (λ x. x == id) ids

abbrev pub option_left : List ℕ → Option ℕ → Option ℕ
option_left gone none = none
option_left gone (some o) = if is_in gone o then none else some o

abbrev pub answer_left : List ℕ → AttemptAnswerRow → AttemptAnswerRow
answer_left gone a = record a { selected_option_id = option_left gone a.selected_option_id }

-- DELETE FROM questions ..., with its cascades
unfoldable pub without_questions : List ℕ → Store → Store
without_questions ids s =
    let gone = map (λ (o : OptionRow). o.id) (select (λ o. is_in ids o.question_id) s.options) in
    record s {
      questions = select (λ q. not (is_in ids q.id)) s.questions;
      options = select (λ o. not (is_in ids o.question_id)) s.options;
      explanations = select (λ e. not (is_in ids e.question_id)) s.explanations;
      quiz_questions = select (λ r. not (is_in ids r.question_id)) s.quiz_questions;
      attempt_answers =
          map (answer_left gone) (select (λ a. not (is_in ids a.question_id)) s.attempt_answers);
    }

abbrev pub question_ids : Store → ℕ → List ℕ
question_ids s quiz_id =
    map (λ (r : QuizQuestionRow). r.question_id)
      (select (λ r. r.quiz_id == quiz_id) s.quiz_questions)

-- deleteQuizQuestions
unfoldable pub delete_quiz_questions : ℕ → Quiz Unit
unfolding without_questions
delete_quiz_questions quiz_id =
    call database λ s. (ok tt, without_questions (question_ids s quiz_id) s)

-- an empty hash is stored as NULL
abbrev pub hash_arg : Option String → Option String
hash_arg none = none
hash_arg (some h) = if str_eq h "" then none else some h

unfoldable pub insert_question : QuizRow → NormalizedQuestion → Quiz ℕ
insert_question quiz q = call database λ s.
    let row : QuestionRow = record {
      id = s.next_id;
      question_text = q.text;
      question_type = q.question_type;
      answer_status = q.answer_status;
      chapter_id = quiz.chapter_id;
      content_hash = hash_arg quiz.content_hash;
    } in
    (ok s.next_id, record s { questions = s.questions ++ row ∷ []; next_id = suc s.next_id })

unfoldable pub insert_option : ℕ → OptionInput → Bool → Quiz Unit
insert_option question_id o is_correct = call database λ s.
    let row : OptionRow = record {
      id = s.next_id;
      question_id = question_id;
      option_label = o.label;
      option_text = o.text;
      is_correct = is_correct;
    } in
    (ok tt, record s { options = s.options ++ row ∷ []; next_id = suc s.next_id })

-- the loop over the options, from index `i`
unfoldable pub insert_options : ℕ → Option ℕ → ℕ → List OptionInput → Quiz Unit
unfolding insert_option
insert_options question_id correct i [] = pure tt
insert_options question_id correct i (o ∷ rest) = do
  insert_option question_id o (is_some_id i correct)
  insert_options question_id correct (suc i) rest

unfoldable pub insert_explanation : ℕ → String → String → Quiz Unit
insert_explanation question_id text language = call database λ s.
    let row : ExplanationRow = record {
      id = s.next_id;
      question_id = question_id;
      explanation_text = text;
      language = language;
    } in
    (ok tt, record s { explanations = s.explanations ++ row ∷ []; next_id = suc s.next_id })

abbrev pub language_code : Env → String → String
language_code env text = explanation_db_code (detect_content_language env.is_letter text)

-- UNIQUE (quiz_id, order_no)
unfoldable pub insert_quiz_question : ℕ → ℕ → ℕ → Quiz Unit
insert_quiz_question quiz_id question_id order_no = call database λ s.
    if any (λ r. r.quiz_id == quiz_id && r.order_no == order_no) s.quiz_questions
    then (err database, s)
    else (
      ok tt,
      record s {
        quiz_questions =
            s.quiz_questions
            ++ record { quiz_id = quiz_id; question_id = question_id; order_no = order_no } ∷ [];
      },
    )

-- insertDraftQuestion
unfoldable pub insert_draft_question : Env → QuizRow → NormalizedQuestion → ℕ → Quiz Unit
unfolding insert_question insert_options insert_explanation insert_quiz_question
insert_draft_question env quiz q order_no = do
  id ← insert_question quiz q
  insert_options id q.correct_index 0 q.options
  (if is_blank q.explanation
      then pure tt
      else insert_explanation id q.explanation (language_code env q.text))
  insert_quiz_question quiz.id id order_no

unfoldable pub insert_draft_questions : Env → QuizRow → List NormalizedQuestion → ℕ → Quiz Unit
insert_draft_questions env quiz [] n = pure tt
insert_draft_questions env quiz (q ∷ rest) n = do
  insert_draft_question env quiz q n
  insert_draft_questions env quiz rest (suc n)

unfoldable pub set_total : ℕ → ℕ → Quiz Unit
set_total quiz_id total = call database λ s. (
  ok tt,
  record s {
    quizzes = update (λ q. q.id == quiz_id) (λ q. record q { total_questions = total }) s.quizzes;
  },
)

-- the body of the transaction
unfoldable pub save_body : Env → QuizRow → List NormalizedQuestion → Quiz Unit
unfolding insert_draft_question
save_body env quiz questions = do
  begin
  delete_quiz_questions quiz.id
  insert_draft_questions env quiz questions 1
  set_total quiz.id (length questions)
  commit

-- the checks of SaveDraft, up to its transaction
unfoldable pub checked_save : ℕ → ℕ → List QuestionInput → Quiz (QuizRow × List NormalizedQuestion)
checked_save quiz_id user_id questions = do
  own ← owns_quiz quiz_id user_id
  guard own quiz_forbidden
  quiz ← select_quiz quiz_id
  guard (is_draft quiz.status) quiz_not_draft
  normalized ← lift (validate_draft_input questions)
  pure (quiz, normalized)

-- the rest of it
unfoldable pub save_checked : Env → ℕ → ℕ → QuizRow × List NormalizedQuestion → Quiz DraftDetail
unfolding save_body
save_checked env quiz_id user_id (quiz, normalized) = do
  transaction (save_body env quiz normalized)
  get_draft env quiz_id user_id

-- SaveDraft
unfoldable pub save_draft : Env → ℕ → ℕ → List QuestionInput → Quiz DraftDetail
unfolding checked_save save_checked
save_draft env quiz_id user_id questions = do
  checked ← checked_save quiz_id user_id questions
  save_checked env quiz_id user_id checked
