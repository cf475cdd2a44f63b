-- ===== src/Quiz/Attempts/Opened.antt =====
-- What CreateAttempt does to the attempts, whatever calls fail.
use study_mate.Prelude.{
  ℕ, suc, ◌≡◌, refl, ◌⊎◌, inl, inr, Bool, true, false, Option, some, none, List, [], ◌∷◌, arith,
  Option-cases, ==_refl, ==_iff, ◌==◌, find-holds, select, length, Bool-cases, if◌then◌else◌, not,
}
use study_mate.Exec.Reading.{IfOk}
use study_mate.Exec.{ok, IsOk, World, call}
use study_mate.Quiz.Model.{
  QuizRow, QuizQuestionRow, AttemptRow, Attempt, AttemptStatus, in_progress, completed,
  is_in_progress, Store, is_draft, time_limit_for_questions,
}
use study_mate.Quiz.Attempts.{
  is_open_attempt, latest_open, select_open_attempt, insert_attempt, new_attempt, time_or,
  create_attempt, as_attempt, select_quiz, count_questions, quiz_question_count, quiz_row,
}

abbrev calm : Store → World Store
calm s = record { store = s; faults = [] }

-- the store with one more attempt
unfoldable pub opened : ℕ → ℕ → ℕ → Store → Store
opened quiz_id user_id started_at s = record s {
  attempts = new_attempt s.next_id quiz_id user_id started_at ∷ s.attempts;
  next_id = suc s.next_id;
}

module _ (now quiz_id user_id : ℕ) (started_at : Option ℕ) (s : Store) (fs : List Bool) where
  created_at :
      let r = create_attempt now quiz_id user_id started_at (record { store = s; faults = fs }) in
      (r.1.store ≡ s)
      ⊎ ((latest_open quiz_id user_id s.attempts ≡ none)
          × (r.1.store ≡ opened quiz_id user_id (time_or now started_at) s))
  unfolding create_attempt select_quiz quiz_question_count select_open_attempt insert_attempt call
      opened
  created_at = ground arith

latest-new :
    (id quiz_id user_id started_at : ℕ) (xs : List AttemptRow)
    → latest_open quiz_id user_id xs ≡ none
    → latest_open quiz_id user_id (new_attempt id quiz_id user_id started_at ∷ xs)
      ≡ some (new_attempt id quiz_id user_id started_at)
unfolding latest_open
latest-new id quiz_id user_id started_at xs h = rw (h, ==_refl quiz_id, ==_refl user_id) refl

-- the number of questions that quizQuestionCount finds
abbrev counted : Store → QuizRow → ℕ
counted s q =
    let n = length (select (λ (r : QuizQuestionRow). r.quiz_id == q.id) s.quiz_questions) in
    if not (n == 0) then n else q.total_questions

module _ (now quiz_id user_id : ℕ) (started_at : Option ℕ) (s : Store) (q : QuizRow)
    (found : quiz_row s quiz_id ≡ some q) (shown : is_draft q.status ≡ false) where
  own_quiz : q.id ≡ quiz_id
  own_quiz = (==_iff q.id quiz_id).0 (find-holds (λ x. x.id == quiz_id) s.quizzes q found)

  continues :
      (a : AttemptRow)
      → latest_open quiz_id user_id s.attempts ≡ some a
      → create_attempt now quiz_id user_id started_at (calm s)
        ≡ (ok (as_attempt (time_limit_for_questions (counted s q)) a), calm s)
  unfolding create_attempt select_quiz quiz_question_count count_questions select_open_attempt call
  continues a h =
      elim (Bool-cases (length (select (λ r. r.quiz_id == quiz_id) s.quiz_questions) == 0)) [
        | inl e ↦ rw (found, shown, own_quiz, e, found, h) refl
        | inr e ↦ rw (found, shown, own_quiz, e, h) refl
      ]

  opens :
      latest_open quiz_id user_id s.attempts ≡ none
      → create_attempt now quiz_id user_id started_at (calm s) ≡ (
        ok (
            as_attempt
              (time_limit_for_questions (counted s q))
              (new_attempt s.next_id quiz_id user_id (time_or now started_at))),
        calm (opened quiz_id user_id (time_or now started_at) s),
      )
  unfolding create_attempt select_quiz quiz_question_count count_questions select_open_attempt
      insert_attempt call opened
  opens h = elim (Bool-cases (length (select (λ r. r.quiz_id == quiz_id) s.quiz_questions) == 0)) [
    | inl e ↦ rw (found, shown, own_quiz, e, found, h) refl
    | inr e ↦ rw (found, shown, own_quiz, e, h) refl
  ]

-- an attempt of the user at the quiz that is in progress
abbrev pub IsOpen : ℕ → ℕ → Attempt → Type 0
IsOpen quiz_id user_id a = (a.quiz_id ≡ quiz_id) × (a.user_id ≡ user_id) × (a.status ≡ in_progress)

progress_test : (st : AttemptStatus) → is_in_progress st ≡ true → st ≡ in_progress
progress_test in_progress h = refl
progress_test completed h = ground (arith, h)

open_test :
    (quiz_id user_id : ℕ) (a : AttemptRow)
    → is_open_attempt quiz_id user_id a ≡ true
    → (a.quiz_id ≡ quiz_id) × (a.user_id ≡ user_id) × (a.status ≡ in_progress)
open_test quiz_id user_id a h = (
  ground (arith, h, ==_iff a.quiz_id quiz_id),
  ground (arith, h, ==_iff a.user_id user_id),
  progress_test a.status (ground (arith, h)),
)

latest_open-IsOpen :
    (quiz_id user_id : ℕ) (xs : List AttemptRow) (a : AttemptRow)
    → latest_open quiz_id user_id xs ≡ some a
    → is_open_attempt quiz_id user_id a ≡ true
unfolding latest_open
latest_open-IsOpen quiz_id user_id [] a h = ground arith
latest_open-IsOpen quiz_id user_id (x ∷ xs) a h =
    elim (Option-cases (latest_open quiz_id user_id xs)) [
      | inl e ↦ ground (arith, h, e)
      | inr (b, e) ↦ ground (arith, h, e, latest_open-IsOpen quiz_id user_id xs b e)
    ]

-- CreateAttempt at a published quiz, with no failing call, gives an attempt of the user at that quiz
-- that is in progress, and calling it again, at any later time, gives that same attempt, with the same
-- start and deadline, and changes nothing more.
pub create_twice :
    (now later quiz_id user_id : ℕ) (started_at again : Option ℕ) (s : Store) (q : QuizRow)
    → quiz_row s quiz_id ≡ some q
    → is_draft q.status ≡ false
    → let first = create_attempt now quiz_id user_id started_at (calm s) in
      IfOk (IsOpen quiz_id user_id) first.0
      × IsOk first.0
      × (create_attempt later quiz_id user_id again first.1 ≡ first)
unfolding opened as_attempt
create_twice now later quiz_id user_id started_at again s q found shown =
    elim (Option-cases (latest_open quiz_id user_id s.attempts)) [
      | inl e ↦
          let at = time_or now started_at in
          rw (opens now quiz_id user_id started_at s q found shown e) (
            (refl, refl, refl),
            tt,
            continues later quiz_id user_id again (opened quiz_id user_id at s) q found shown
                (new_attempt s.next_id quiz_id user_id at)
                (latest-new s.next_id quiz_id user_id at s.attempts e),
          )
      | inr (a, e) ↦ rw (continues now quiz_id user_id started_at s q found shown a e) (
        open_test quiz_id user_id a (latest_open-IsOpen quiz_id user_id s.attempts a e),
        tt,
        continues later quiz_id user_id again s q found shown a e,
      )
    ]
