-- ===== src/Quiz/Queries.antt =====
-- The queries that attempts and drafts share: the questions of a quiz in their order, and their
-- options and explanations.
use study_mate.Prelude.{
  ℕ, String, Bool, ◌&&◌, Option, none, some, List, [], ◌∷◌, ◌==◌, leb, find, select, if◌then◌else◌,
}
use study_mate.Quiz.Model.{QuizQuestionRow, QuestionRow, OptionRow, ExplanationRow, Store}

-- ORDER BY order_no ASC, as an insertion sort
unfoldable pub insert_by_order : QuizQuestionRow → List QuizQuestionRow → List QuizQuestionRow
insert_by_order r [] = r ∷ []
insert_by_order r (q ∷ rest) =
    if leb r.order_no q.order_no then r ∷ q ∷ rest else q ∷ insert_by_order r rest

unfoldable pub sort_by_order : List QuizQuestionRow → List QuizQuestionRow
unfolding insert_by_order
sort_by_order [] = []
sort_by_order (r ∷ rest) = insert_by_order r (sort_by_order rest)

abbrev pub add_found {ℓ} : {A : Type ℓ} → Option A → List A → List A
add_found none xs = xs
add_found (some x) xs = x ∷ xs

abbrev pub question_with : Store → ℕ → Option QuestionRow
question_with s id = find (λ q. q.id == id) s.questions

-- the join with `questions` on the primary key
unfoldable pub joined_questions : Store → List QuizQuestionRow → List QuestionRow
joined_questions s [] = []
joined_questions s (r ∷ rest) = add_found (question_with s r.question_id) (joined_questions s rest)

-- FROM quiz_questions qq JOIN questions ... WHERE qq.quiz_id = $1 ORDER BY qq.order_no ASC
unfoldable pub questions_of : Store → ℕ → List QuestionRow
unfolding sort_by_order joined_questions
questions_of s quiz_id =
    joined_questions s (sort_by_order (select (λ r. r.quiz_id == quiz_id) s.quiz_questions))

-- (SELECT o.id FROM question_options o WHERE o.question_id = ... AND o.is_correct = true LIMIT 1)
abbrev pub is_key_of : ℕ → OptionRow → Bool
is_key_of question_id o = o.question_id == question_id && o.is_correct

abbrev pub option_id : Option OptionRow → Option ℕ
option_id none = none
option_id (some o) = some o.id

abbrev pub option_text : Option OptionRow → String
option_text none = ""
option_text (some o) = o.option_text

-- the explanation with the least id
abbrev pub earlier : ExplanationRow → Option ExplanationRow → ExplanationRow
earlier e none = e
earlier e (some f) = if leb e.id f.id then e else f

unfoldable pub first_explanation : ℕ → List ExplanationRow → Option ExplanationRow
first_explanation q [] = none
first_explanation q (e ∷ rest) =
    let later = first_explanation q rest in
    if e.question_id == q then some (earlier e later) else later

abbrev pub explanation_text : Option ExplanationRow → String
explanation_text none = ""
explanation_text (some e) = e.explanation_text

-- COALESCE((SELECT e.explanation_text ... ORDER BY e.id ASC LIMIT 1), '')
unfoldable pub explanation_of : Store → ℕ → String
unfolding first_explanation
explanation_of s q = explanation_text (first_explanation q s.explanations)
