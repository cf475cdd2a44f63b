-- ===== src/Quiz/Saving/Rows.antt =====
-- The tables after SaveDraft, row by row (backend/internal/quiz/review.go).
use study_mate.Prelude.{
  ℕ, suc, ◌+◌, ◌≡◌, not, Option, List, [], ◌∷◌, ◌++◌, ◌==◌, length, map, select, update, is_blank,
  if◌then◌else◌,
}
use study_mate.Quiz.Model.{QuestionRow, ExplanationRow, OptionRow, QuizQuestionRow, QuizRow, Store}
use study_mate.Quiz.Drafts.{OptionInput, NormalizedQuestion}
use study_mate.Quiz.Editing.{Env, is_some_id}
use study_mate.Quiz.Saving.{is_in, answer_left, question_ids, hash_arg, language_code}

-- the rows of the options from index `i`, whose ids begin with `k`
abbrev pub option_rows : ℕ → ℕ → Option ℕ → ℕ → List OptionInput → List OptionRow
option_rows k question_id correct i [] = []
option_rows k question_id correct i (o ∷ os) =
    record {
      id = k;
      question_id = question_id;
      option_label = o.label;
      option_text = o.text;
      is_correct = is_some_id i correct;
    }
    ∷ option_rows (suc k) question_id correct (suc i) os

-- the id of a question is `k`, those of its options follow, and then that of its explanation
abbrev pub explanation_id : ℕ → NormalizedQuestion → ℕ
explanation_id k q = suc k + length q.options

abbrev pub id_after : ℕ → NormalizedQuestion → ℕ
id_after k q = if is_blank q.explanation then explanation_id k q else suc (explanation_id k q)

abbrev pub question_row : QuizRow → ℕ → NormalizedQuestion → QuestionRow
question_row quiz k q = record {
  id = k;
  question_text = q.text;
  question_type = q.question_type;
  answer_status = q.answer_status;
  chapter_id = quiz.chapter_id;
  content_hash = hash_arg quiz.content_hash;
}

abbrev pub explanation_rows : Env → ℕ → NormalizedQuestion → List ExplanationRow
explanation_rows env k q =
    if is_blank q.explanation
    then []
    else record {
      id = explanation_id k q;
      question_id = k;
      explanation_text = q.explanation;
      language = language_code env q.text;
    }
      ∷ []

-- the rows of all questions, in order, from the id `k`
abbrev pub all_questions : QuizRow → ℕ → List NormalizedQuestion → List QuestionRow
all_questions quiz k [] = []
all_questions quiz k (q ∷ qs) = question_row quiz k q ∷ all_questions quiz (id_after k q) qs

abbrev pub all_options : ℕ → List NormalizedQuestion → List OptionRow
all_options k [] = []
all_options k (q ∷ qs) =
    option_rows (suc k) k q.correct_index 0 q.options ++ all_options (id_after k q) qs

abbrev pub all_explanations : Env → ℕ → List NormalizedQuestion → List ExplanationRow
all_explanations env k [] = []
all_explanations env k (q ∷ qs) = explanation_rows env k q ++ all_explanations env (id_after k q) qs

abbrev pub all_links : ℕ → ℕ → ℕ → List NormalizedQuestion → List QuizQuestionRow
all_links quiz_id n k [] = []
all_links quiz_id n k (q ∷ qs) =
    record { quiz_id = quiz_id; question_id = k; order_no = n }
    ∷ all_links quiz_id (suc n) (id_after k q) qs

abbrev pub last_id : ℕ → List NormalizedQuestion → ℕ
last_id k [] = k
last_id k (q ∷ qs) = last_id (id_after k q) qs

-- what a saved draft leaves of the tables before it: the questions of the quiz, with all that refers to
-- them, are replaced by the new ones
pub record IsReplaced (env : Env) (quiz : QuizRow) (qs : List NormalizedQuestion) (s t : Store)
    : Type 0 where
  pub questions :
      t.questions
      ≡ select (λ q. not (is_in (question_ids s quiz.id) q.id)) s.questions
        ++ all_questions quiz s.next_id qs
  pub options :
      t.options
      ≡ select (λ o. not (is_in (question_ids s quiz.id) o.question_id)) s.options
        ++ all_options s.next_id qs
  pub explanations :
      t.explanations
      ≡ select (λ e. not (is_in (question_ids s quiz.id) e.question_id)) s.explanations
        ++ all_explanations env s.next_id qs
  pub quiz_questions :
      t.quiz_questions
      ≡ select (λ r. not (is_in (question_ids s quiz.id) r.question_id)) s.quiz_questions
        ++ all_links quiz.id 1 s.next_id qs
  pub quizzes :
      t.quizzes
      ≡ update (λ q. q.id == quiz.id) (λ q. record q { total_questions = length qs }) s.quizzes
  pub attempt_answers :
      let old = question_ids s quiz.id in
      let gone = map (λ (o : OptionRow). o.id) (select (λ o. is_in old o.question_id) s.options) in
      t.attempt_answers
      ≡ map (answer_left gone) (select (λ a. not (is_in old a.question_id)) s.attempt_answers)
  pub others : (t.attempts ≡ s.attempts) × (t.reports ≡ s.reports) × (t.scan_jobs ≡ s.scan_jobs)
