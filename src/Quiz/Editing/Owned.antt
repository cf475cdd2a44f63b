-- ===== src/Quiz/Editing/Owned.antt =====
-- What GetDraft reads, whatever calls fail.
use study_mate.Prelude.{
  ==_iff, ◌==◌, find-holds, ℕ, ◌≡◌, refl, String, Bool, true, Option, none, some, List, [], ◌∷◌,
  map, ap, subst, sym, ◌∙◌,
}
use study_mate.Exec.Reading.{
  Query-imp, Query, Query-bind, Query-call, Query-read, Query-pure, Query-guard, IfOk,
}
use study_mate.Quiz.Model.{QuestionRow, OptionRow, QuizRow, Store, Error}
use study_mate.Quiz.Queries.{questions_of, explanation_of}
use study_mate.Quiz.Attempts.{or_missing, quiz_row, select_quiz}
use study_mate.Quiz.Listing.{
  Listed, select_questions, select_options, options_of, add_options, unfilled, fill_options,
  list_questions,
}
use study_mate.Quiz.Editing.{
  Env, DraftQuestion, DraftDetail, owns, owns_quiz, select_explanations, list_draft, draft_question,
  get_draft,
}

listed_with : (String → String → Bool) → Store → ℕ → List QuestionRow → List Listed
listed_with label_le s quiz_id [] = []
listed_with label_le s quiz_id (q ∷ rest) =
    add_options (options_of label_le s quiz_id) (map unfilled (q ∷ rest))

-- the questions of a quiz as its reviewer sees them
unfoldable pub drafted : Env → Store → ℕ → List DraftQuestion
unfolding listed_with
drafted env s quiz_id =
    map (draft_question (explanation_of s))
      (listed_with env.label_le s quiz_id (questions_of s quiz_id))

list_questions-Query :
    (label_le : String → String → Bool) (quiz_id : ℕ) (s : Store)
    → Query s
        (λ (ls : List Listed). ls ≡ listed_with label_le s quiz_id (questions_of s quiz_id))
        (list_questions label_le quiz_id)
unfolding list_questions select_questions fill_options select_options listed_with
list_questions-Query label_le quiz_id s =
    Query-bind (λ (qs : List QuestionRow). qs ≡ questions_of s quiz_id) _ _ (Query-call _ _ refl)
      λ qs e.
        subst
          (λ x.
            Query s (λ ls. ls ≡ listed_with label_le s quiz_id x)
              (fill_options label_le quiz_id qs))
          e (filled qs)
  where
    filled :
        (qs : List QuestionRow)
        → Query s
            (λ (ls : List Listed). ls ≡ listed_with label_le s quiz_id qs)
            (fill_options label_le quiz_id qs)
    filled [] = Query-pure [] refl
    filled (q ∷ qs) =
        Query-bind (λ (os : List OptionRow). os ≡ options_of label_le s quiz_id) _ _
          (Query-call _ _ refl)
          λ os e. Query-pure _ (ap (λ x. add_options x (map unfilled (q ∷ qs))) e)

-- what a draft that was read tells of the store
pub record IsDraftOf (env : Env) (quiz_id user_id : ℕ) (s : Store) (d : DraftDetail) : Type 0 where
  pub owned : owns s quiz_id user_id ≡ true
  pub row : (q : QuizRow) × (quiz_row s quiz_id ≡ some q) × (d.status ≡ q.status)
  pub questions : d.questions ≡ drafted env s quiz_id

pub or_missing-IfOk :
    {A : Type 0} (e : Error) (o : Option A) → IfOk (λ a. o ≡ some a) (or_missing e o)
or_missing-IfOk e none = tt
or_missing-IfOk e (some a) = refl

explained-Query : (s : Store) → Query s (λ f. f ≡ explanation_of s) select_explanations
unfolding select_explanations
explained-Query s = Query-read explanation_of

own_id : (s : Store) (quiz_id : ℕ) (q : QuizRow) → quiz_row s quiz_id ≡ some q → q.id ≡ quiz_id
own_id s quiz_id q h = (==_iff q.id quiz_id).0 (find-holds (λ x. x.id == quiz_id) s.quizzes q h)

list_draft-Query :
    (env : Env) (q : QuizRow) (f : ℕ → String) (s : Store)
    → f ≡ explanation_of s
    → Query s
        (λ (d : DraftDetail). (d.status ≡ q.status) × (d.questions ≡ drafted env s q.id))
        (list_draft env q f)
unfolding list_draft drafted
list_draft-Query env q f s e = Query-bind _ _ _ (list_questions-Query env.label_le q.id s) λ ls l.
    Query-pure _ (
      refl,
      ap (λ x. map (draft_question x) ls) e ∙ ap (λ x. map (draft_question (explanation_of s)) x) l,
    )

pub get_draft-Query :
    (env : Env) (quiz_id user_id : ℕ) (s : Store)
    → Query s (IsDraftOf env quiz_id user_id s) (get_draft env quiz_id user_id)
unfolding get_draft owns_quiz select_quiz
get_draft-Query env quiz_id user_id s =
    Query-bind (λ (b : Bool). b ≡ owns s quiz_id user_id) _ _ (Query-call _ _ refl)
      λ own o.
        Query-bind (λ _. own ≡ true) _ _ (Query-guard own _)
          λ u g.
            Query-bind (λ (q : QuizRow). quiz_row s quiz_id ≡ some q) _ _
              (Query-call _ _ (or_missing-IfOk _ (quiz_row s quiz_id)))
              λ q r.
                Query-bind (λ f. f ≡ explanation_of s) _ _ (explained-Query s)
                  λ f e. Query-imp (list_draft-Query env q f s e) λ d h. record {
                    owned = sym o ∙ g;
                    row = (q, r, h.0);
                    questions = h.1 ∙ ap (drafted env s) (own_id s quiz_id q r);
                  }
