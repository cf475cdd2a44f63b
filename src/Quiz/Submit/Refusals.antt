-- ===== src/Quiz/Submit/Refusals.antt =====
-- When SubmitAttempt changes nothing.
use study_mate.Prelude.{ℕ, ◌≡◌, ◌≢◌, Bool, false, Option, some, List, arith}
use study_mate.Exec.{IsError, World, call}
use study_mate.Quiz.Model.{AttemptRow, Store, Answer, is_in_progress}
use study_mate.Quiz.Attempts.{attempt_row, select_attempt}
use study_mate.Quiz.Submit.{begin, commit, load_result, submit_body, submit_attempt}

module _ (now attempt_id user_id : ℕ) (answers : List Answer) (submitted_at : Option ℕ) (s : Store)
    (a : AttemptRow) (found : attempt_row s attempt_id ≡ some a) where
  foreign_at :
      (fs : List Bool)
      → a.user_id ≢ user_id
      → let r =
          submit_attempt now attempt_id user_id answers submitted_at
            (record { store = s; faults = fs }) in
        IsError r.0 × (r.1.store ≡ s)
  unfolding submit_attempt submit_body begin select_attempt call
  foreign_at fs h = ground (arith, found)

  settled_at :
      (fs : List Bool)
      → is_in_progress a.status ≡ false
      → (submit_attempt now attempt_id user_id answers submitted_at
          (record { store = s; faults = fs })).1.store
        ≡ s
  unfolding submit_attempt submit_body begin select_attempt load_result commit call
  settled_at fs h = ground (arith, found)

-- A submission for another user's attempt ends in an error and changes nothing, whatever calls fail.
foreign_submission :
    (now attempt_id user_id : ℕ) (answers : List Answer) (submitted_at : Option ℕ) (w : World Store)
    (a : AttemptRow)
    → attempt_row w.store attempt_id ≡ some a
    → a.user_id ≢ user_id
    → IsError (submit_attempt now attempt_id user_id answers submitted_at w).0
      × ((submit_attempt now attempt_id user_id answers submitted_at w).1.store ≡ w.store)
foreign_submission now attempt_id user_id answers submitted_at w a found =
    foreign_at now attempt_id user_id answers submitted_at w.store a found w.faults

-- A submission for an attempt that is already submitted changes nothing: its score, its answers and
-- its report stay, whatever is sent and whatever calls fail.
settled_submission :
    (now attempt_id user_id : ℕ) (answers : List Answer) (submitted_at : Option ℕ) (w : World Store)
    (a : AttemptRow)
    → attempt_row w.store attempt_id ≡ some a
    → is_in_progress a.status ≡ false
    → (submit_attempt now attempt_id user_id answers submitted_at w).1.store ≡ w.store
settled_submission now attempt_id user_id answers submitted_at w a found =
    settled_at now attempt_id user_id answers submitted_at w.store a found w.faults
