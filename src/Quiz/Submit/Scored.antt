-- ===== src/Quiz/Submit/Scored.antt =====
-- What a submission stores when all its calls succeed, and what a second one gets.
use study_mate.Prelude.{
  ℕ, ◌≡◌, refl, ◌∙◌, true, false, Option, some, List, [], ◌∷◌, ◌++◌, ◌==◌, ==_refl, find-update,
  find-holds, any, update, map, Bool-cases, inl, inr, ==_iff, length, if◌then◌else◌,
}
use mathlib.Core.List.{append-nil}
use study_mate.Exec.{ok, World, call}
use study_mate.Quiz.Model.{AttemptRow, ReportRow, Store, Answer, is_in_progress}
use study_mate.Quiz.Grading.{GradedRow, grade, score_percent}
use study_mate.Quiz.Grading.Counts.{grade_total}
use study_mate.Quiz.Attempts.{attempt_row, select_attempt, time_or}
use study_mate.Quiz.Submit.{
  answer_key, quiz_answer_key, insert_attempt_answers, stored_answer, complete_attempt, scored,
  insert_report, begin, commit, load_result, score_attempt, submit_body, submit_attempt, result_of,
}

abbrev calm : Store → World Store
calm s = record { store = s; faults = [] }

-- the tables after the answers, the score and the report are stored
unfoldable pub graded_store : ℕ → AttemptRow → List Answer → Option ℕ → Store → Store
graded_store now a answers submitted_at s =
    let key = answer_key s a.quiz_id in
    let t = grade answers key in
    let score = score_percent t.correct (length key) in
    record s {
      attempt_answers = s.attempt_answers ++ map (stored_answer a.id now) t.rows;
      attempts = update (λ x. x.id == a.id) (scored score (time_or now submitted_at) t) s.attempts;
      reports =
          if any (λ x. x.attempt_id == a.id) s.reports
          then s.reports
          else record {
            attempt_id = a.id;
            accuracy = score;
            correct_count = t.correct;
            wrong_count = t.wrong;
            skipped_count = t.skipped;
            total = length key;
          }
            ∷ s.reports;
    }

-- the attempt's row in them
unfoldable pub graded_row : ℕ → AttemptRow → List Answer → Option ℕ → Store → AttemptRow
graded_row now a answers submitted_at s =
    let key = answer_key s a.quiz_id in
    let t = grade answers key in
    scored (score_percent t.correct (length key)) (time_or now submitted_at) t a

insert_answers-nil :
    (attempt_id at : ℕ) (rows : List GradedRow) (s : Store)
    → insert_attempt_answers attempt_id at rows (calm s) ≡ (
      ok tt,
      calm (record s {
        attempt_answers = s.attempt_answers ++ map (stored_answer attempt_id at) rows;
      }),
    )
unfolding insert_attempt_answers call
insert_answers-nil attempt_id at [] s = rw append-nil
insert_answers-nil attempt_id at (r ∷ rs) s = refl

insert_report-nil :
    (r : ReportRow) (s : Store)
    → insert_report r (calm s) ≡ (
      ok tt,
      calm (record s {
        reports =
            if any (λ x. x.attempt_id == r.attempt_id) s.reports then s.reports else r ∷ s.reports;
      }),
    )
unfolding insert_report call
insert_report-nil r s = elim (Bool-cases (any (λ x. x.attempt_id == r.attempt_id) s.reports)) [
  | inl e ↦ rw e refl
  | inr e ↦ rw e refl
]

module _ (now attempt_id : ℕ) (answers : List Answer) (submitted_at : Option ℕ) (s : Store)
    (a : AttemptRow) (found : attempt_row s attempt_id ≡ some a) where
  own_id : a.id ≡ attempt_id
  own_id = (==_iff a.id attempt_id).0 (find-holds (λ x. x.id == attempt_id) s.attempts a found)

  score_attempt-nil : score_attempt now a answers submitted_at (calm s) ≡ (
    ok (result_of (graded_row now a answers submitted_at s)),
    calm (graded_store now a answers submitted_at s),
  )
  unfolding score_attempt quiz_answer_key complete_attempt commit graded_store graded_row result_of
      call
  score_attempt-nil =
      rw (insert_answers-nil, insert_report-nil, grade_total answers (answer_key s a.quiz_id)) refl

  first-nil :
      is_in_progress a.status ≡ true
      → submit_attempt now attempt_id a.user_id answers submitted_at (calm s) ≡ (
        ok (result_of (graded_row now a answers submitted_at s)),
        calm (graded_store now a answers submitted_at s),
      )
  unfolding submit_attempt submit_body begin select_attempt call
  first-nil h = rw (found, ==_refl, h, score_attempt-nil) refl

  pub row-graded :
      attempt_row (graded_store now a answers submitted_at s) attempt_id
      ≡ some (graded_row now a answers submitted_at s)
  unfolding graded_store graded_row
  row-graded =
      let t = grade answers (answer_key s a.quiz_id) in
      let f =
        scored (score_percent t.correct (length (answer_key s a.quiz_id)))
          (time_or now submitted_at) t in
      find-update (λ (x : AttemptRow). x.id == attempt_id) (λ x. x.id == a.id) f s.attempts a
        (λ y. refl) found
      ∙ rw ==_refl refl

again-nil :
    (later attempt_id user_id : ℕ) (others : List Answer) (submitted_at : Option ℕ) (s : Store)
    (b : AttemptRow)
    → attempt_row s attempt_id ≡ some b
    → b.user_id ≡ user_id
    → is_in_progress b.status ≡ false
    → submit_attempt later attempt_id user_id others submitted_at (calm s)
      ≡ (ok (result_of b), calm s)
unfolding submit_attempt submit_body begin commit load_result select_attempt call
again-nil later attempt_id user_id others submitted_at s b found own h =
    rw (found, own, ==_refl, h, found) refl

-- The owner's submission of an attempt in progress, with no failing call, is scored, and sending
-- another one later, with any answers and any time, returns the very same result and changes nothing
-- more.
pub submit_twice :
    (now later attempt_id : ℕ) (answers others : List Answer) (submitted_at again : Option ℕ)
    (s : Store) (a : AttemptRow)
    → attempt_row s attempt_id ≡ some a
    → is_in_progress a.status ≡ true
    → let first = submit_attempt now attempt_id a.user_id answers submitted_at (calm s) in
      (first.0 ≡ ok (result_of (graded_row now a answers submitted_at s)))
      × (first.1 ≡ calm (graded_store now a answers submitted_at s))
      × (submit_attempt later attempt_id a.user_id others again first.1 ≡ first)
submit_twice now later attempt_id answers others submitted_at again s a found h =
    rw (first-nil now attempt_id answers submitted_at s a found h) (
      refl,
      refl,
      again-nil later attempt_id a.user_id others again (graded_store now a answers submitted_at s)
          (graded_row now a answers submitted_at s)
          (row-graded now attempt_id answers submitted_at s a found) (unfold graded_row in refl)
          (unfold graded_row in refl),
    )
