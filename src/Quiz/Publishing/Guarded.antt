-- ===== src/Quiz/Publishing/Guarded.antt =====
-- When PublishDraft publishes, and what a failed one leaves behind.
use study_mate.Prelude.{
  ℕ, ◌≡◌, refl, ◌⊎◌, inl, inr, String, Bool, true, not, some, List, [], ◌∷◌, arith, ap, sym, ◌∙◌,
  any, update, ◌==◌, ◌&&◌, length, subst,
}
use study_mate.Exec.{
  Result, ok, err, IsOk, IsError, World, call, settle, transaction, and_then, pure, ◌>>◌,
}
use study_mate.Exec.Reading.{Query, Query-bind, Query-guard, Query-pure, Query-then}
use study_mate.Exec.Keeps.{Keeps, Keeps-call, Keeps-bind, keeps_rules}
use study_mate.Scan.Model.{quiz_ready}
use study_mate.Quiz.Model.{QuizRow, Store, Error, is_draft, published, set}
use study_mate.Quiz.Attempts.{quiz_row}
use study_mate.Quiz.Submit.{begin, commit}
use study_mate.Quiz.Editing.{Env, DraftQuestion, DraftDetail, owns, is_some_id}
use study_mate.Quiz.Editing.Owned.{drafted, get_draft-Query}
use study_mate.Quiz.Saving.{is_in, question_ids, insert_explanation}
use study_mate.Quiz.Publishing.{
  PublishResult, checked_draft, publish_checked, has_answer, explain_missing, explain_all,
  publish_body, publish_draft, set_published, set_answered, set_ready,
}

-- the same tables but for the explanations and the next id
abbrev pub OnlyExplains : Store → Store → Type 0
OnlyExplains s t =
    (t.quizzes ≡ s.quizzes)
    × (t.quiz_questions ≡ s.quiz_questions)
    × (t.questions ≡ s.questions)
    × (t.options ≡ s.options)
    × (t.attempts ≡ s.attempts)
    × (t.scan_jobs ≡ s.scan_jobs)
    × (t.attempt_answers ≡ s.attempt_answers)
    × (t.reports ≡ s.reports)

OnlyExplains-refl : (s t : Store) → t ≡ s → OnlyExplains s t
OnlyExplains-refl s t h = (
  ap (λ (x : Store). x.quizzes) h,
  ap (λ (x : Store). x.quiz_questions) h,
  ap (λ (x : Store). x.questions) h,
  ap (λ (x : Store). x.options) h,
  ap (λ (x : Store). x.attempts) h,
  ap (λ (x : Store). x.scan_jobs) h,
  ap (λ (x : Store). x.attempt_answers) h,
  ap (λ (x : Store). x.reports) h,
)

module _ (s : Store) where
  insert_explanation-Keeps :
      (id : ℕ) (text language : String)
      → Keeps (OnlyExplains s) (insert_explanation id text language)
  unfolding insert_explanation
  insert_explanation-Keeps id text language = Keeps-call _ _ (λ t h. h)

  explain_missing-Keeps :
      (env : Env) (q : DraftQuestion) → Keeps (OnlyExplains s) (explain_missing env q)
  unfolding explain_missing
  explain_missing-Keeps env q = search (keeps_rules, insert_explanation-Keeps) depth 12

  explain_all-Keeps :
      (env : Env) (qs : List DraftQuestion) → Keeps (OnlyExplains s) (explain_all env qs)
  unfolding explain_all
  explain_all-Keeps env [] = search keeps_rules depth 12
  explain_all-Keeps env (q ∷ qs) =
      Keeps-bind _ _ (explain_missing-Keeps env q) (λ _. explain_all-Keeps env qs)

-- what the checks of PublishDraft let through
pub record IsPublishable (env : Env) (quiz_id user_id : ℕ) (s : Store) : Type 0 where
  pub owned : owns s quiz_id user_id ≡ true
  pub row : (q : QuizRow) × (quiz_row s quiz_id ≡ some q) × (is_draft q.status ≡ true)
  pub some_question : not (length (drafted env s quiz_id) == 0) ≡ true
  pub answered : not (any (λ q. not (has_answer q)) (drafted env s quiz_id)) ≡ true

checked_draft-Query :
    (env : Env) (quiz_id user_id : ℕ) (s : Store)
    → Query s
        (λ (d : DraftDetail). IsPublishable env quiz_id user_id s)
        (checked_draft env quiz_id user_id)
unfolding checked_draft
checked_draft-Query env quiz_id user_id s =
    Query-bind _ _ _ (get_draft-Query env quiz_id user_id s) λ d h.
      Query-bind (λ _. is_draft d.status ≡ true) _ _ (Query-guard _ _)
        λ _ a.
          Query-bind (λ _. not (length d.questions == 0) ≡ true) _ _ (Query-guard _ _)
            λ _ b.
              Query-bind (λ _. not (any (λ q. not (has_answer q)) d.questions) ≡ true) _ _
                (Query-guard _ _)
                λ _ c. Query-pure d (record {
                  owned = h.owned;
                  row = (h.row.0, h.row.1, ap is_draft (sym h.row.2) ∙ a);
                  some_question = ap (λ qs. not (length qs == 0)) (sym h.questions) ∙ b;
                  answered =
                      ap (λ qs. not (any (λ q. not (has_answer q)) qs)) (sym h.questions) ∙ c;
                })

-- what a publication leaves of the tables before it
pub record PublishedFrom (quiz_id user_id : ℕ) (s t : Store) : Type 0 where
  pub quizzes :
      t.quizzes ≡ update (λ q. q.id == quiz_id) (λ q. record q { status = published }) s.quizzes
  pub questions :
      t.questions
      ≡ update
          (λ q. is_in (question_ids s quiz_id) q.id)
          (λ q. record q { answer_status = set })
          s.questions
  pub scan_jobs :
      t.scan_jobs
      ≡ update
          (λ j. is_some_id quiz_id j.quiz_id && j.user_id == user_id)
          (λ j. record j { status = quiz_ready; progress = 100 })
          s.scan_jobs
  pub others :
      (t.quiz_questions ≡ s.quiz_questions)
      × (t.options ≡ s.options)
      × (t.attempts ≡ s.attempts)
      × (t.attempt_answers ≡ s.attempt_answers)
      × (t.reports ≡ s.reports)

PublishedFrom-explained :
    (quiz_id user_id : ℕ) (s t u : Store)
    → OnlyExplains s t
    → PublishedFrom quiz_id user_id t u
    → PublishedFrom quiz_id user_id s u
PublishedFrom-explained quiz_id user_id s t u e p = record {
  quizzes = p.quizzes ∙ rw e.0 refl;
  questions = p.questions ∙ rw (e.1, e.2) refl;
  scan_jobs = p.scan_jobs ∙ rw e.5 refl;
  others =
      (p.others.0 ∙ e.1, p.others.1 ∙ e.3, p.others.2 ∙ e.4, p.others.3 ∙ e.6, p.others.4 ∙ e.7);
}

body_at :
    (quiz_id user_id : ℕ) (t : Store) (fs : List Bool)
    → let r = publish_body quiz_id user_id (record { store = t; faults = fs }) in
      IsError r.0 ⊎ PublishedFrom quiz_id user_id t r.1.store
unfolding publish_body begin set_published set_answered set_ready commit call
body_at quiz_id user_id t fs = ground arith

module _ (env : Env) (quiz_id user_id : ℕ) (s : Store) where
  -- a failed publication, or a complete one
  abbrev Outcome : Result Error PublishResult × World Store → Type 0
  Outcome r =
      (IsError r.0 × OnlyExplains s r.1.store)
      ⊎ (IsOk r.0 × PublishedFrom quiz_id user_id s r.1.store)

  after_body :
      (a : PublishResult) (t : Store) (r : Result Error Unit) (v : World Store)
      → OnlyExplains s t
      → IsError r ⊎ PublishedFrom quiz_id user_id t v.store
      → Outcome (and_then (λ _. pure a) (settle t (r, v)))
  after_body a t (ok u) v e (inl h) = absurd h
  after_body a t (ok u) v e (inr p) =
      inr (tt, PublishedFrom-explained quiz_id user_id s t v.store e p)
  after_body a t (err x) v e p = inl (tt, e)

  after_explanations :
      (a : PublishResult) (r : Result Error Unit) (v : World Store)
      → OnlyExplains s v.store
      → Outcome (and_then (λ _. transaction (publish_body quiz_id user_id) >> pure a) (r, v))
  after_explanations a (ok u) v e =
      after_body a v.store (publish_body quiz_id user_id v).0 (publish_body quiz_id user_id v).1 e
        (body_at quiz_id user_id v.store v.faults)
  after_explanations a (err x) v e = inl (tt, e)

  publish_checked-Outcome :
      (d : DraftDetail) (v : World Store)
      → v.store ≡ s
      → Outcome (publish_checked env quiz_id user_id d v)
  unfolding publish_checked
  publish_checked-Outcome d v h =
      after_explanations _ (explain_all env d.questions v).0 (explain_all env d.questions v).1
        ((explain_all-Keeps s env d.questions).at v (OnlyExplains-refl s v.store h))

with_checks :
    (env : Env) (quiz_id user_id : ℕ) (s : Store) (r : Result Error PublishResult × World Store)
    → IsPublishable env quiz_id user_id s
    → Outcome env quiz_id user_id s r
    → (IsError r.0 × OnlyExplains s r.1.store)
      ⊎ (IsOk r.0 × IsPublishable env quiz_id user_id s × PublishedFrom quiz_id user_id s r.1.store)
with_checks env quiz_id user_id s r p (inl e) = inl e
with_checks env quiz_id user_id s r p (inr o) = inr (o.0, p, o.1)

-- PublishDraft either ends in an error and changes nothing but the explanations, or it succeeds: then
-- the user owns the quiz, it was a draft with at least one question, and each question has a correct
-- option; its row is published, its questions are marked as answered and the user's scan job is ready,
-- and no other row of any table but the explanations has changed.
pub publish_draft_lem :
    (env : Env) (quiz_id user_id : ℕ) (w : World Store)
    → let r = publish_draft env quiz_id user_id w in
      (IsError r.0 × OnlyExplains w.store r.1.store)
      ⊎ (IsOk r.0
          × IsPublishable env quiz_id user_id w.store
          × PublishedFrom quiz_id user_id w.store r.1.store)
unfolding publish_draft
publish_draft_lem env quiz_id user_id w =
    let f = publish_checked env quiz_id user_id in
    elim (Query-then f w (checked_draft-Query env quiz_id user_id w.store)) [
      | inl e ↦ inl (e.0, OnlyExplains-refl _ _ e.1)
      | inr (d, p, v, h, eq) ↦
          with_checks env quiz_id user_id w.store (publish_draft env quiz_id user_id w) p (
            subst (Outcome env quiz_id user_id w.store) (sym eq)
              (publish_checked-Outcome env quiz_id user_id w.store d v h))
    ]
