-- ===== src/Quiz/Saving/Inserted.antt =====
-- What the transaction of SaveDraft writes (backend/internal/quiz/review.go).
use study_mate.Prelude.{
  ℕ, suc, ◌+◌, ◌≡◌, refl, ap, inl, inr, String, ◌&&◌, Option, List, [], ◌∷◌, ◌++◌, ◌==◌, length,
  any, update, is_blank, Bool-cases, arith,
}
use mathlib.Core.List.{append_assoc, append-nil}
use study_mate.Exec.Doing.{Does, Does-pure, Does-call, Does-bind, Does-if, Does-as}
use study_mate.Quiz.Model.{QuizRow, Store}
use study_mate.Quiz.Submit.{begin, commit}
use study_mate.Quiz.Drafts.{OptionInput, NormalizedQuestion}
use study_mate.Quiz.Editing.{Env}
use study_mate.Quiz.Saving.{
  without_questions, question_ids, delete_quiz_questions, insert_question, insert_option,
  insert_options, insert_explanation, language_code, insert_quiz_question, insert_draft_question,
  insert_draft_questions, set_total, save_body,
}
use study_mate.Quiz.Saving.Rows.{
  option_rows, id_after, question_row, explanation_rows, all_questions, all_options,
  all_explanations, all_links, last_id, IsReplaced,
}

abbrev with_options : ℕ → Option ℕ → ℕ → List OptionInput → Store → Store
with_options question_id correct i os s = record s {
  options = s.options ++ option_rows s.next_id question_id correct i os;
  next_id = s.next_id + length os;
}

one_option : ℕ → Option ℕ → ℕ → OptionInput → Store → Store
one_option question_id correct i o s = record s {
  options = s.options ++ option_rows s.next_id question_id correct i (o ∷ []);
  next_id = suc s.next_id;
}

with_options-nil :
    (question_id : ℕ) (correct : Option ℕ) (i : ℕ) (s : Store)
    → s ≡ with_options question_id correct i [] s
with_options-nil question_id correct i s = ground (arith, append-nil s.options)

count_on : (k n : ℕ) → suc k + n ≡ k + suc n
count_on k n = omega arith

with_options-one :
    (question_id : ℕ) (correct : Option ℕ) (i : ℕ) (o : OptionInput) (os : List OptionInput)
    (s : Store)
    → with_options question_id correct (suc i) os (one_option question_id correct i o s)
      ≡ with_options question_id correct i (o ∷ os) s
unfolding one_option
with_options-one question_id correct i o os s =
    rw
      (
        append_assoc s.options (option_rows s.next_id question_id correct i (o ∷ []))
            (option_rows (suc s.next_id) question_id correct (suc i) os),
        count_on s.next_id (length os),
      )
      refl

insert_options-Does :
    (question_id : ℕ) (correct : Option ℕ) (i : ℕ) (os : List OptionInput)
    → Does
        (λ s. (tt, with_options question_id correct i os s))
        (insert_options question_id correct i os)
unfolding insert_options insert_option one_option
insert_options-Does question_id correct i [] =
    Does-as (Does-pure tt) λ s. ap (λ t. (tt, t)) (with_options-nil question_id correct i s)
insert_options-Does question_id correct i (o ∷ os) =
    Does-as
      (Does-bind _ _
        (Does-call _ _ (λ s. (tt, one_option question_id correct i o s)) λ s. inr (refl, refl))
        λ _. insert_options-Does question_id correct (suc i) os)
      λ s. ap (λ t. (tt, t)) (with_options-one question_id correct i o os s)

abbrev with_question : Env → QuizRow → ℕ → NormalizedQuestion → Store → Store
with_question env quiz n q s = record s {
  questions = s.questions ++ question_row quiz s.next_id q ∷ [];
  options = s.options ++ option_rows (suc s.next_id) s.next_id q.correct_index 0 q.options;
  explanations = s.explanations ++ explanation_rows env s.next_id q;
  quiz_questions =
      s.quiz_questions ++ record { quiz_id = quiz.id; question_id = s.next_id; order_no = n } ∷ [];
  next_id = id_after s.next_id q;
}

one_question : QuizRow → NormalizedQuestion → Store → Store
one_question quiz q s = record s {
  questions = s.questions ++ question_row quiz s.next_id q ∷ [];
  next_id = suc s.next_id;
}

one_link : ℕ → ℕ → ℕ → Store → Store
one_link quiz_id n k s = record s {
  quiz_questions =
      s.quiz_questions ++ record { quiz_id = quiz_id; question_id = k; order_no = n } ∷ [];
}

one_explanation : ℕ → String → String → Store → Store
one_explanation k text language s = record s {
  explanations =
      s.explanations
      ++ record { id = s.next_id; question_id = k; explanation_text = text; language = language }
        ∷ [];
  next_id = suc s.next_id;
}

insert_link-Does :
    (quiz_id k n : ℕ) → Does (λ s. (tt, one_link quiz_id n k s)) (insert_quiz_question quiz_id k n)
unfolding insert_quiz_question one_link
insert_link-Does quiz_id k n = Does-call _ _ _ λ s.
    elim (Bool-cases (any (λ r. r.quiz_id == quiz_id && r.order_no == n) s.quiz_questions)) [
      | inl e ↦ rw e (inl tt)
      | inr e ↦ rw e (inr (refl, refl))
    ]

insert_question-Does :
    (quiz : QuizRow) (q : NormalizedQuestion)
    → Does (λ s. (s.next_id, one_question quiz q s)) (insert_question quiz q)
unfolding insert_question one_question
insert_question-Does quiz q = Does-call _ _ _ λ s. inr (refl, refl)

insert_explanation-Does :
    (k : ℕ) (text language : String)
    → Does (λ s. (tt, one_explanation k text language s)) (insert_explanation k text language)
unfolding insert_explanation one_explanation
insert_explanation-Does k text language = Does-call _ _ _ λ s. inr (refl, refl)

insert_draft_question-Does :
    (env : Env) (quiz : QuizRow) (q : NormalizedQuestion) (n : ℕ)
    → Does (λ s. (tt, with_question env quiz n q s)) (insert_draft_question env quiz q n)
unfolding insert_draft_question one_question one_link one_explanation
insert_draft_question-Does env quiz q n =
    Does-as
      (Does-bind _ _ (insert_question-Does quiz q) λ k.
        Does-bind _ _ (insert_options-Does k q.correct_index 0 q.options) λ _.
          Does-bind _ _
            (Does-if (is_blank q.explanation) (Does-pure tt)
              (insert_explanation-Does k q.explanation (language_code env q.text)))
            λ _. insert_link-Does quiz.id k n)
      λ s. elim (Bool-cases (is_blank q.explanation)) [
        | inl e ↦ rw (e, append-nil s.explanations) refl
        | inr e ↦ rw e refl
      ]

abbrev with_questions : Env → QuizRow → ℕ → List NormalizedQuestion → Store → Store
with_questions env quiz n qs s = record s {
  questions = s.questions ++ all_questions quiz s.next_id qs;
  options = s.options ++ all_options s.next_id qs;
  explanations = s.explanations ++ all_explanations env s.next_id qs;
  quiz_questions = s.quiz_questions ++ all_links quiz.id n s.next_id qs;
  next_id = last_id s.next_id qs;
}

with_questions-nil :
    (env : Env) (quiz : QuizRow) (n : ℕ) (s : Store) → s ≡ with_questions env quiz n [] s
with_questions-nil env quiz n s =
    rw
      (
        append-nil s.questions,
        append-nil s.options,
        append-nil s.explanations,
        append-nil s.quiz_questions,
      )
      refl

with_questions-one :
    (env : Env) (quiz : QuizRow) (n : ℕ) (q : NormalizedQuestion) (qs : List NormalizedQuestion)
    (s : Store)
    → with_questions env quiz (suc n) qs (with_question env quiz n q s)
      ≡ with_questions env quiz n (q ∷ qs) s
with_questions-one env quiz n q qs s =
    let k = s.next_id in
    let after = id_after k q in
    rw
      (
        append_assoc s.questions (question_row quiz k q ∷ []) (all_questions quiz after qs),
        append_assoc s.options (option_rows (suc k) k q.correct_index 0 q.options)
            (all_options after qs),
        append_assoc s.explanations (explanation_rows env k q) (all_explanations env after qs),
        append_assoc s.quiz_questions
            (record { quiz_id = quiz.id; question_id = k; order_no = n } ∷ [])
            (all_links quiz.id (suc n) after qs),
      )
      refl

insert_draft_questions-Does :
    (env : Env) (quiz : QuizRow) (qs : List NormalizedQuestion) (n : ℕ)
    → Does (λ s. (tt, with_questions env quiz n qs s)) (insert_draft_questions env quiz qs n)
unfolding insert_draft_questions
insert_draft_questions-Does env quiz [] n =
    Does-as (Does-pure tt) λ s. ap (λ t. (tt, t)) (with_questions-nil env quiz n s)
insert_draft_questions-Does env quiz (q ∷ qs) n =
    Does-as
      (Does-bind _ _ (insert_draft_question-Does env quiz q n)
        λ _. insert_draft_questions-Does env quiz qs (suc n))
      λ s. ap (λ t. (tt, t)) (with_questions-one env quiz n q qs s)

-- the number of questions of a quiz
abbrev with_total : ℕ → ℕ → Store → Store
with_total quiz_id total s = record s {
  quizzes = update (λ q. q.id == quiz_id) (λ q. record q { total_questions = total }) s.quizzes;
}

-- the whole of the transaction
unfoldable pub saved : Env → QuizRow → List NormalizedQuestion → Store → Store
saved env quiz qs s =
    with_total quiz.id (length qs)
      (with_questions env quiz 1 qs (without_questions (question_ids s quiz.id) s))

pub save_body-Does :
    (env : Env) (quiz : QuizRow) (qs : List NormalizedQuestion)
    → Does (λ s. (tt, saved env quiz qs s)) (save_body env quiz qs)
unfolding save_body begin delete_quiz_questions set_total commit saved
save_body-Does env quiz qs = Does-bind _ _ (Does-call _ _ (λ s. (tt, s)) λ s. inr (refl, refl)) λ _.
    Does-bind _ _
      (Does-call _ _ (λ s. (tt, without_questions (question_ids s quiz.id) s))
        λ s. inr (refl, refl))
      λ _. Does-bind _ _ (insert_draft_questions-Does env quiz qs 1) λ _.
        Does-bind _ _
          (Does-call _ _ (λ s. (tt, with_total quiz.id (length qs) s)) λ s. inr (refl, refl))
          λ _. Does-call _ _ (λ s. (tt, s)) λ s. inr (refl, refl)

pub saved-IsReplaced :
    (env : Env) (quiz : QuizRow) (qs : List NormalizedQuestion) (s : Store)
    → IsReplaced env quiz qs s (saved env quiz qs s)
unfolding saved without_questions
saved-IsReplaced env quiz qs s = record {
  questions = refl;
  options = refl;
  explanations = refl;
  quiz_questions = refl;
  quizzes = refl;
  attempt_answers = refl;
  others = (refl, refl, refl);
}
