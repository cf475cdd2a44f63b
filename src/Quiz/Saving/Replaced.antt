-- ===== src/Quiz/Saving/Replaced.antt =====
-- What SaveDraft leaves behind, whatever calls fail.
use study_mate.Prelude.{ℕ, ◌≡◌, refl, ◌⊎◌, inl, inr, Bool, true, some, List, arith, sym, ◌∙◌, subst}
use study_mate.Exec.{Result, ok, err, IsError, World, transaction, and_then}
use study_mate.Exec.Reading.{
  Query, Query-bind, Query-call, Query-guard, Query-pure, Query-lift, Query-then, ok_value,
}
use study_mate.Quiz.Model.{QuizRow, Store, Error, is_draft}
use study_mate.Quiz.Attempts.{quiz_row, select_quiz}
use study_mate.Quiz.Drafts.{QuestionInput, NormalizedQuestion, validate_draft_input}
use study_mate.Quiz.Editing.{Env, DraftDetail, owns, owns_quiz, get_draft}
use study_mate.Quiz.Editing.Owned.{or_missing-IfOk, get_draft-Query}
use study_mate.Exec.Doing.{transaction-Does}
use study_mate.Quiz.Saving.Rows.{IsReplaced}
use study_mate.Quiz.Saving.Inserted.{saved, save_body-Does, saved-IsReplaced}
use study_mate.Quiz.Saving.{save_body, checked_save, save_checked, save_draft}

-- what the checks of SaveDraft let through
pub record IsSavable (quiz_id user_id : ℕ) (questions : List QuestionInput) (s : Store)
    (quiz : QuizRow) (normalized : List NormalizedQuestion) : Type 0 where
  pub owned : owns s quiz_id user_id ≡ true
  pub found : quiz_row s quiz_id ≡ some quiz
  pub editable : is_draft quiz.status ≡ true
  pub valid : validate_draft_input questions ≡ ok normalized

checked_save-Query :
    (quiz_id user_id : ℕ) (questions : List QuestionInput) (s : Store)
    → Query s
        (λ (c : QuizRow × List NormalizedQuestion). IsSavable quiz_id user_id questions s c.0 c.1)
        (checked_save quiz_id user_id questions)
unfolding checked_save owns_quiz select_quiz
checked_save-Query quiz_id user_id questions s =
    Query-bind (λ (b : Bool). b ≡ owns s quiz_id user_id) _ _ (Query-call _ _ refl)
      λ own o.
        Query-bind (λ _. own ≡ true) _ _ (Query-guard own _)
          λ _ g.
            Query-bind (λ (q : QuizRow). quiz_row s quiz_id ≡ some q) _ _
              (Query-call _ _ (or_missing-IfOk _ (quiz_row s quiz_id)))
              λ q r.
                Query-bind (λ _. is_draft q.status ≡ true) _ _ (Query-guard (is_draft q.status) _)
                  λ _ d.
                    Query-bind (λ ns. validate_draft_input questions ≡ ok ns) _ _
                      (Query-lift _ (ok_value (validate_draft_input questions)))
                      λ ns v.
                        Query-pure (q, ns)
                          (record { owned = sym o ∙ g; found = r; editable = d; valid = v })

-- an error and the tables as they were, or the questions replaced
data Saved (env : Env) (quiz : QuizRow) (ns : List NormalizedQuestion) (s : Store)
    (r : Result Error DraftDetail × World Store) : Type 0 where
  kept : IsError r.0 → r.1.store ≡ s → Saved env quiz ns s r
  replaced : IsReplaced env quiz ns s r.1.store → Saved env quiz ns s r

module _ (env : Env) (quiz_id user_id : ℕ) (s : Store) (quiz : QuizRow)
    (ns : List NormalizedQuestion) where
  after_save :
      (r : Result Error Unit) (u : World Store)
      → (IsError r × (u.store ≡ s)) ⊎ ((r ≡ ok tt) × (u.store ≡ saved env quiz ns s))
      → Saved env quiz ns s (and_then (λ _. get_draft env quiz_id user_id) (r, u))
  after_save (ok a) u (inl e) = absurd e.0
  after_save (ok a) u (inr d) = replaced (
      subst (IsReplaced env quiz ns s)
        (sym (((get_draft-Query env quiz_id user_id u.store).at u refl).0 ∙ d.1))
        (saved-IsReplaced env quiz ns s))
  after_save (err x) u (inl e) = kept tt e.1
  after_save (err x) u (inr d) = ground (arith, d.0)

  save_checked-Saved :
      (v : World Store)
      → v.store ≡ s
      → Saved env quiz ns s (save_checked env quiz_id user_id (quiz, ns) v)
  unfolding save_checked
  save_checked-Saved v h =
      let body = save_body env quiz ns in
      after_save (transaction body v).0 (transaction body v).1 (
        subst
          (λ t.
            (IsError (transaction body v).0 × ((transaction body v).1.store ≡ t))
            ⊎ (((transaction body v).0 ≡ ok tt)
                × ((transaction body v).1.store ≡ saved env quiz ns t)))
          h (transaction-Does body v (save_body-Does env quiz ns)))

-- how SaveDraft ended
pub data SaveOutcome (env : Env) (quiz_id user_id : ℕ) (questions : List QuestionInput) (s : Store)
    (r : Result Error DraftDetail × World Store) : Type 0 where
  unchanged : IsError r.0 → r.1.store ≡ s → SaveOutcome env quiz_id user_id questions s r
  stored :
      (quiz : QuizRow) (ns : List NormalizedQuestion)
      → IsSavable quiz_id user_id questions s quiz ns
      → IsReplaced env quiz ns s r.1.store
      → SaveOutcome env quiz_id user_id questions s r

with_checks :
    (env : Env) (quiz_id user_id : ℕ) (questions : List QuestionInput) (s : Store) (quiz : QuizRow)
    (ns : List NormalizedQuestion) (r : Result Error DraftDetail × World Store)
    → IsSavable quiz_id user_id questions s quiz ns
    → Saved env quiz ns s r
    → SaveOutcome env quiz_id user_id questions s r
with_checks env quiz_id user_id questions s quiz ns r p (kept e h) = unchanged e h
with_checks env quiz_id user_id questions s quiz ns r p (replaced t) = stored quiz ns p t

-- Whatever calls fail, SaveDraft never leaves a draft with half of its questions: either it ends in an
-- error and changes nothing, or the user owns the quiz, it is a draft, the questions are valid, and each
-- table holds, in place of the quiz's old questions, their options, explanations, links and answers,
-- the rows of all the new questions, in order and under new ids, and the quiz their number.
pub save_draft_lem :
    (env : Env) (quiz_id user_id : ℕ) (questions : List QuestionInput) (w : World Store)
    → SaveOutcome env quiz_id user_id questions w.store (save_draft env quiz_id user_id questions w)
unfolding save_draft
save_draft_lem env quiz_id user_id questions w =
    let f = save_checked env quiz_id user_id in
    elim (Query-then f w (checked_save-Query quiz_id user_id questions w.store)) [
      | inl e ↦ unchanged e.0 e.1
      | inr ((q, ns), p, v, h, eq) ↦
          with_checks env quiz_id user_id questions w.store q ns
            (save_draft env quiz_id user_id questions w) p
            (subst (Saved env q ns w.store) (sym eq)
              (save_checked-Saved env quiz_id user_id w.store q ns v h))
    ]
