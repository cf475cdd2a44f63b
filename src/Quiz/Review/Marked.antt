-- ===== src/Quiz/Review/Marked.antt =====
-- The review of an attempt against what was submitted.
use study_mate.Prelude.{
  ℕ, ◌≡◌, refl, ◌∙◌, ap, sym, subst, Bool, true, false, ◌&&◌, Option, none, some, List, [], ◌∷◌,
  ◌++◌, ◌==◌, ==_refl, map, any, select, find, All, arith,
}
use study_mate.Exec.{World, ok, call}
use study_mate.Quiz.Model.{
  ReviewStatus, correct, wrong, skipped, QuestionRow, AttemptRow, AttemptAnswerRow, Store, Answer,
  is_in_progress,
}
use study_mate.Quiz.Grading.{grade}
use study_mate.Quiz.Grading.Counts.{graded, deserved, last_choice, grade_lem}
use study_mate.Quiz.Queries.{questions_of, is_key_of, option_id}
use study_mate.Quiz.Attempts.{attempt_row, select_attempt}
use study_mate.Quiz.Submit.{submit_attempt, or_zero, stored_answer, answer_key}
use study_mate.Quiz.Submit.Scored.{graded_store, graded_row, row-graded, submit_twice}
use study_mate.Quiz.Review.{
  ReviewQuestion, ReviewDetail, review_status, review_question, answered_question, review_rows,
  select_review, get_review,
}

abbrev calm : Store → World Store
calm s = record { store = s; faults = [] }

-- the status that a mark stands for
abbrev pub marked : Option Bool → ReviewStatus
marked none = skipped
marked (some true) = correct
marked (some false) = wrong

-- what the review shows of a question, and what it should show
abbrev pub Shown : Type 0
Shown = ℕ × Option ℕ × Option ℕ × ReviewStatus

abbrev pub shown : ReviewQuestion → Shown
shown r = (r.id, r.your_answer, r.correct_answer, r.status)

abbrev pub key_of : Store → QuestionRow → Option ℕ
key_of s q = option_id (find (is_key_of q.id) s.options)

abbrev pub expected : Store → List Answer → QuestionRow → Shown
expected s answers q =
    let choice = last_choice none answers q.id in
    (q.id, choice, key_of s q, marked (deserved choice (key_of s q)))

review_marked :
    (choice key : Option ℕ)
    → review_status choice (deserved choice key) ≡ marked (deserved choice key)
unfolding review_status
review_marked none key = refl
review_marked (some s) none = refl
review_marked (some s) (some k) = ground arith

-- no question comes twice
abbrev pub Distinct : List QuestionRow → Type 0
Distinct [] = Unit
Distinct (q ∷ qs) = (any (λ r. r.id == q.id) qs ≡ false) × Distinct qs

select-append :
    {A : Type 0} (p : A → Bool) (xs ys : List A) → select p (xs ++ ys) ≡ select p xs ++ select p ys
select-append p [] ys = refl
select-append p (x ∷ xs) ys = ground (arith, select-append p xs ys)

abbrev is_answer : ℕ → ℕ → AttemptAnswerRow → Bool
is_answer id q a = a.question_id == q && a.attempt_id == id

none_of_others :
    (id q : ℕ) (xs : List AttemptAnswerRow)
    → any (λ x. x.attempt_id == id) xs ≡ false
    → select (is_answer id q) xs ≡ []
none_of_others id q [] h = refl
none_of_others id q (x ∷ xs) h = ground (arith, h, none_of_others id q xs)

module _ (id now : ℕ) (s : Store) (answers : List Answer) where
  row : QuestionRow → AttemptAnswerRow
  row q = stored_answer id now (graded answers (q.id, key_of s q))

  rows : List QuestionRow → List AttemptAnswerRow
  unfolding row
  rows [] = []
  rows (q ∷ qs) = row q ∷ rows qs

  none_for :
      (n : ℕ) (qs : List QuestionRow)
      → any (λ r. r.id == n) qs ≡ false
      → select (is_answer id n) (rows qs) ≡ []
  unfolding rows row graded
  none_for n [] h = refl
  none_for n (q ∷ qs) h = ground (arith, h, none_for n qs)

  passed : (q r : QuestionRow) → (r.id == q.id) ≡ false → is_answer id r.id (row q) ≡ false
  unfolding row graded
  passed q r h = ground (arith, h)

  own : (q : QuestionRow) → is_answer id q.id (row q) ≡ true
  unfolding row graded
  own q = rw (==_refl q.id, ==_refl id) refl

  -- rows of other questions are passed over
  after :
      (q : QuestionRow) (qs rest : List QuestionRow)
      → any (λ r. r.id == q.id) qs ≡ false
      → All (λ r. select (is_answer id r.id) (rows rest) ≡ row r ∷ []) qs
      → All (λ r. select (is_answer id r.id) (rows (q ∷ rest)) ≡ row r ∷ []) qs
  unfolding rows
  after q [] rest h a = tt
  after q (r ∷ qs) rest h a =
      (rw (passed q r (ground (arith, h))) a.0, after q qs rest (ground (arith, h)) a.1)

  one_for :
      (qs : List QuestionRow)
      → Distinct qs
      → All (λ q. select (is_answer id q.id) (rows qs) ≡ row q ∷ []) qs
  unfolding rows
  one_for [] d = tt
  one_for (q ∷ qs) d = (rw (own q, none_for q.id qs d.0) refl, after q qs qs d.0 (one_for qs d.1))

  -- after older rows, none of this attempt
  one_stored :
      (old : List AttemptAnswerRow) (qs all : List QuestionRow)
      → any (λ x. x.attempt_id == id) old ≡ false
      → All (λ q. select (is_answer id q.id) (rows all) ≡ row q ∷ []) qs
      → All (λ q. select (is_answer id q.id) (old ++ rows all) ≡ row q ∷ []) qs
  one_stored old [] all fresh a = tt
  one_stored old (q ∷ qs) all fresh a = (
    select-append (is_answer id q.id) old (rows all) ∙ rw (none_of_others id q.id old fresh) a.0,
    one_stored old qs all fresh a.1,
  )

  stored_rows :
      (qs : List QuestionRow)
      → map (stored_answer id now) (map (graded answers) (map (λ q. (q.id, key_of s q)) qs))
        ≡ rows qs
  unfolding rows row
  stored_rows [] = refl
  stored_rows (q ∷ qs) = ap (λ rs. row q ∷ rs) (stored_rows qs)

  -- the review over rows of which each question has its own
  reviewed :
      (t : Store) (qs : List QuestionRow)
      → t.options ≡ s.options
      → All (λ q. select (is_answer id q.id) t.attempt_answers ≡ row q ∷ []) qs
      → map shown (review_rows t id qs) ≡ map (expected s answers) qs
  unfolding review_rows answered_question review_question row graded
  reviewed t [] same a = refl
  reviewed t (q ∷ qs) same a =
      rw
        (
          a.0,
          same,
          review_marked (last_choice none answers q.id) (key_of s q),
          reviewed t qs same a.1,
        )
        refl

module _ (now : ℕ) (answers : List Answer) (submitted_at : Option ℕ) (s : Store) (a : AttemptRow)
    (found : attempt_row s a.id ≡ some a) where
  graded_rows :
      (grade answers (answer_key s a.quiz_id)).rows ≡ map (graded answers) (answer_key s a.quiz_id)
  graded_rows = (grade_lem answers (answer_key s a.quiz_id)).0

  stored_here :
      (graded_store now a answers submitted_at s).attempt_answers
      ≡ s.attempt_answers ++ rows a.id now s answers (questions_of s a.quiz_id)
  unfolding graded_store answer_key
  stored_here =
      ap (λ rs. s.attempt_answers ++ map (stored_answer a.id now) rs) graded_rows
      ∙ ap (λ rs. s.attempt_answers ++ rs)
          (stored_rows a.id now s answers (questions_of s a.quiz_id))

  review_run :
      let t = graded_store now a answers submitted_at s in
      (get_review a.id a.user_id (calm t)).0
      ≡ ok (record {
        score = or_zero (graded_row now a answers submitted_at s).score;
        questions = review_rows t a.id (questions_of s a.quiz_id);
      })
  unfolding get_review select_review select_attempt call graded_row graded_store questions_of
  review_run = rw (row-graded now a.id answers submitted_at s a found, ==_refl a.user_id) refl

-- After the owner's submission of an attempt in progress, with no failing call, GetReview returns its
-- score and shows each question of the quiz, in order, with the choice in the last answer to it, its
-- correct option and a status that compares the two. The questions of the quiz are distinct, and no
-- answers of the attempt were stored before.
pub get_review-submit_attempt :
    (now : ℕ) (answers : List Answer) (submitted_at : Option ℕ) (s : Store) (a : AttemptRow)
    → attempt_row s a.id ≡ some a
    → is_in_progress a.status ≡ true
    → any (λ x. x.attempt_id == a.id) s.attempt_answers ≡ false
    → Distinct (questions_of s a.quiz_id)
    → let w = (submit_attempt now a.id a.user_id answers submitted_at (calm s)).1 in
      (d : ReviewDetail) × ((get_review a.id a.user_id w).0 ≡ ok d)
      × (d.score ≡ or_zero (graded_row now a answers submitted_at s).score)
      × (map shown d.questions ≡ map (expected s answers) (questions_of s a.quiz_id))
get_review-submit_attempt now answers submitted_at s a found open_row fresh distinct =
    let qs = questions_of s a.quiz_id in
    let t = graded_store now a answers submitted_at s in
    let first = submit_twice now now a.id answers [] submitted_at none s a found open_row in
    let own_rows = one_for a.id now s answers qs distinct in
    let all_rows = one_stored a.id now s answers s.attempt_answers qs qs fresh own_rows in
    (
      record {
        score = or_zero (graded_row now a answers submitted_at s).score;
        questions = review_rows t a.id qs;
      },
      rw first.1 (review_run now answers submitted_at s a found),
      refl,
      reviewed a.id now s answers t qs (unfold graded_store in refl) (
          subst
            (λ old. All (λ q. select (is_answer a.id q.id) old ≡ row a.id now s answers q ∷ []) qs)
            (sym (stored_here now answers submitted_at s a found)) all_rows),
    )
