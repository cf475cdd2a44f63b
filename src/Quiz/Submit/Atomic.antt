-- ===== src/Quiz/Submit/Atomic.antt =====
-- What a submission leaves, whatever calls fail.
use study_mate.Prelude.{
  ℕ, ◌≡◌, refl, ◌⊎◌, inl, inr, Bool, true, false, Option, some, List, [], ◌∷◌, ◌++◌, ◌==◌, ==_refl,
  any, update, map, length, if◌then◌else◌, Bool-cases,
}
use mathlib.Core.List.{append-nil}
use study_mate.Exec.{ok, IsError, call}
use study_mate.Exec.Doing.{Does, Done, Does-pure, Does-call, Does-bind, Does-as, settled}
use study_mate.Quiz.Model.{AttemptRow, ReportRow, Store, Answer, is_in_progress}
use study_mate.Quiz.Grading.{GradedRow, grade, score_percent}
use study_mate.Quiz.Grading.Counts.{grade_total}
use study_mate.Quiz.Attempts.{attempt_row, select_attempt, time_or}
use study_mate.Quiz.Submit.{
  answer_key, quiz_answer_key, insert_attempt_answers, stored_answer, complete_attempt, scored,
  insert_report, begin, commit, score_attempt, submit_body, submit_attempt, result_of,
}
use study_mate.Quiz.Submit.Scored.{graded_row, graded_store}

abbrev with_answers : ℕ → ℕ → List GradedRow → Store → Store
with_answers attempt_id at rows s = record s {
  attempt_answers = s.attempt_answers ++ map (stored_answer attempt_id at) rows;
}

insert_answers-Does :
    (attempt_id at : ℕ) (rows : List GradedRow)
    → Does
        (λ s. (tt, with_answers attempt_id at rows s))
        (insert_attempt_answers attempt_id at rows)
unfolding insert_attempt_answers
insert_answers-Does attempt_id at [] = Does-as (Does-pure tt) λ s. rw append-nil refl
insert_answers-Does attempt_id at (r ∷ rs) = Does-call _ _ _ λ s. inr (refl, refl)

abbrev with_report : ReportRow → Store → Store
with_report r s = record s {
  reports = if any (λ x. x.attempt_id == r.attempt_id) s.reports then s.reports else r ∷ s.reports;
}

insert_report-Does : (r : ReportRow) → Does (λ s. (tt, with_report r s)) (insert_report r)
unfolding insert_report
insert_report-Does r = Does-call _ _ _ λ s.
    elim (Bool-cases (any (λ x. x.attempt_id == r.attempt_id) s.reports)) [
      | inl e ↦ rw e (inr (refl, refl))
      | inr e ↦ rw e (inr (refl, refl))
    ]

score_attempt-Does :
    (now : ℕ) (a : AttemptRow) (answers : List Answer) (submitted_at : Option ℕ)
    → Does
        (λ s. (
          result_of (graded_row now a answers submitted_at s),
          graded_store now a answers submitted_at s,
        ))
        (score_attempt now a answers submitted_at)
unfolding score_attempt quiz_answer_key complete_attempt commit graded_store graded_row result_of
score_attempt-Does now a answers submitted_at =
    Does-as
      (Does-bind _ _ (Does-call _ _ (λ s. (answer_key s a.quiz_id, s)) λ s. inr (refl, refl)) λ key.
        let t = grade answers key in
        Does-bind _ _ (insert_answers-Does a.id now t.rows) λ _.
          Does-bind _ _
            (Does-call _ _
              (λ s. (
                tt,
                record s {
                  attempts =
                      update (λ x. x.id == a.id)
                        (scored (score_percent t.correct (length key)) (time_or now submitted_at) t)
                        s.attempts;
                },
              ))
              λ s. inr (refl, refl))
            λ _. Does-bind _ _ (insert_report-Does _) λ _.
              Does-bind _ _ (Does-call _ _ (λ s. (tt, s)) λ s. inr (refl, refl)) λ _. Does-pure _)
      λ s. rw (grade_total answers (answer_key s a.quiz_id)) refl

module _ (now attempt_id : ℕ) (answers : List Answer) (submitted_at : Option ℕ) (s : Store)
    (a : AttemptRow) (found : attempt_row s attempt_id ≡ some a)
    (open_row : is_in_progress a.status ≡ true) where
  scored_at :
      (fs : List Bool)
      → let r = score_attempt now a answers submitted_at (record { store = s; faults = fs }) in
        IsError r.0
        ⊎ Done
            (
              result_of (graded_row now a answers submitted_at s),
              graded_store now a answers submitted_at s,
            )
            r
  scored_at fs =
      (score_attempt-Does now a answers submitted_at).at (record { store = s; faults = fs })

  body_at :
      (fs : List Bool)
      → let r =
          submit_body now attempt_id a.user_id answers submitted_at
            (record { store = s; faults = fs }) in
        IsError r.0
        ⊎ Done
            (
              result_of (graded_row now a answers submitted_at s),
              graded_store now a answers submitted_at s,
            )
            r
  unfolding submit_body begin select_attempt call
  body_at [] = rw (found, ==_refl, open_row) (scored_at [])
  body_at (true ∷ fs) = inl tt
  body_at (false ∷ []) = rw (found, ==_refl, open_row) (scored_at [])
  body_at (false ∷ true ∷ fs) = inl tt
  body_at (false ∷ false ∷ fs) = rw (found, ==_refl, open_row) (scored_at fs)

-- Whatever calls fail, the owner's submission of an attempt in progress either ends in an error and
-- changes nothing, or it is scored: the answers, the score and the report are all stored, and the
-- result tells that score.
pub submit_atomic :
    (now attempt_id : ℕ) (answers : List Answer) (submitted_at : Option ℕ) (s : Store)
    (a : AttemptRow) (fs : List Bool)
    → attempt_row s attempt_id ≡ some a
    → is_in_progress a.status ≡ true
    → let r =
        submit_attempt now attempt_id a.user_id answers submitted_at
          (record { store = s; faults = fs }) in
      (IsError r.0 × (r.1.store ≡ s))
      ⊎ ((r.0 ≡ ok (result_of (graded_row now a answers submitted_at s)))
          × (r.1.store ≡ graded_store now a answers submitted_at s))
unfolding submit_attempt
submit_atomic now attempt_id answers submitted_at s a fs found open_row =
    settled _ (record { store = s; faults = fs }) _ _
      (body_at now attempt_id answers submitted_at s a found open_row fs)
