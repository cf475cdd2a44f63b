-- ===== src/Tests/Quiz.antt =====
-- A quiz of two questions, an attempt at it, and the draft that it was.
use study_mate.Prelude.{
  ℕ, ◌≡◌, ◌≢◌, ◌≤◌, ◌⊎◌, refl, Bool, true, false, some, none, Option, List, [], ◌∷◌, arith, map,
  length, All, is_blank, rounded, scaled, nearest,
}
use study_mate.Prelude.Integer.{negsuc}
use study_mate.Exec.Reading.{IfOk}
use study_mate.Exec.{ok, IsOk, IsError, World, call}
use study_mate.Scan.Model.{review_ready}
use study_mate.Quiz.Model.{
  QuizStatus, draft, published, AttemptStatus, in_progress, correct, skipped, set, unknown,
  AttemptRow, Store, Answer, QuizRow, QuestionRow, OptionRow,
}
use study_mate.Quiz.Grading.{verdict, selected_by_question, grade, score_percent}
use study_mate.Quiz.Grading.Counts.{graded, marks, grade_lem}
use study_mate.Quiz.Grading.Score.{score_percent-range, IsNear}
use study_mate.Quiz.Attempts.{create_attempt, select_quiz}
use study_mate.Quiz.Attempts.Opened.{IsOpen, create_twice}
use study_mate.Quiz.Submit.{begin, commit, or_zero, submit_attempt, result_of}
use study_mate.Quiz.Submit.Atomic.{submit_atomic}
use study_mate.Quiz.Submit.Scored.{graded_row, graded_store, submit_twice}
use study_mate.Quiz.Drafts.{
  normalize_all, normalize, option_bounds, kept_options, normalized, QuestionInput,
  NormalizedQuestion, validate_draft_input,
}
use study_mate.Quiz.Drafts.Validated.{IsPersistable, validate_draft_input-IsPersistable}
use study_mate.Quiz.Editing.{Env, get_draft}
use study_mate.Quiz.Review.{ReviewDetail, get_review}
use study_mate.Quiz.Review.Marked.{shown, get_review-submit_attempt}
use study_mate.Quiz.Saving.{save_draft}
use study_mate.Quiz.Saving.Replaced.{SaveOutcome, save_draft_lem}
use study_mate.Quiz.Listing.{list_questions, options_of}
use study_mate.Quiz.Queries.{questions_of, explanation_of}
use study_mate.Quiz.Publishing.{publish_draft}
use study_mate.Quiz.Publishing.Guarded.{
  OnlyExplains, IsPublishable, PublishedFrom, publish_draft_lem,
}

abbrev answers : List Answer
answers = record { question_id = 1; selected_option_id = some 11 } ∷ []

abbrev key : List (ℕ × Option ℕ)
key = (1, some 11) ∷ (2, some 22) ∷ []

grade_lem_example :
    ((grade answers key).rows ≡ map (graded answers) key)
    × ((grade answers key).correct ≡ 1)
    × ((grade answers key).wrong ≡ 0)
    × ((grade answers key).skipped ≡ 1)
unfolding marks graded verdict selected_by_question
grade_lem_example = grade_lem answers key

score_percent-range_example :
    IsNear 1 3 (score_percent 1 3)
    × (score_percent 1 3 ≤ 1000)
    × (score_percent 3 3 ≡ 1000)
    × (score_percent 0 3 ≡ 0)
score_percent-range_example = score_percent-range 1 3 (omega arith) (omega arith) (omega arith)

-- 23 of 80 is 28.75 percent, but the float64 product is less and is rounded down
rounded_down : (score_percent 23 80 ≡ 287) × (score_percent 1 3 ≡ 333) × (score_percent 41 80 ≡ 512)
unfolding score_percent rounded scaled nearest
rounded_down = (refl, refl, refl)

abbrev quiz : QuizStatus → QuizRow
quiz st = record {
  id = 5;
  title = "Light";
  total_questions = 2;
  status = st;
  subject = none;
  board = none;
  chapter_id = none;
  content_hash = none;
}

abbrev question : ℕ → QuestionRow
question id = record {
  id = id;
  question_text = "Why?";
  question_type = "mcq";
  answer_status = set;
  chapter_id = none;
  content_hash = none;
}

abbrev option : ℕ → ℕ → Bool → OptionRow
option id q b = record {
  id = id;
  question_id = q;
  option_label = "A";
  option_text = "Because";
  is_correct = b;
}

abbrev started : AttemptStatus → AttemptRow
started st = record {
  id = 30;
  quiz_id = 5;
  user_id = 7;
  status = st;
  score = none;
  correct_count = 0;
  wrong_count = 0;
  skipped_count = 0;
  started_at = 100;
  submitted_at = none;
}

abbrev school : QuizStatus → AttemptStatus → Store
school qs st = record {
  quizzes = quiz qs ∷ [];
  quiz_questions =
      record { quiz_id = 5; question_id = 2; order_no = 2 }
      ∷ record { quiz_id = 5; question_id = 1; order_no = 1 }
      ∷ [];
  questions = question 1 ∷ question 2 ∷ [];
  options = option 11 1 true ∷ option 12 1 false ∷ option 21 2 false ∷ option 22 2 true ∷ [];
  explanations = [];
  attempts = started st ∷ [];
  attempt_answers = [];
  reports = [];
  scan_jobs =
      record { id = 1; quiz_id = some 5; user_id = 7; status = review_ready; progress = 90 } ∷ [];
  next_id = 100;
}

abbrev calm : Store → World Store
calm s = record { store = s; faults = [] }

-- the third call of the submission fails
submit_atomic_example :
    let s = school published in_progress in
    let r =
      submit_attempt 200 30 7 answers none
        (record { store = s; faults = false ∷ false ∷ true ∷ [] }) in
    (IsError r.0 × (r.1.store ≡ s))
    ⊎ ((r.0 ≡ ok (result_of (graded_row 200 (started in_progress) answers none s)))
        × (r.1.store ≡ graded_store 200 (started in_progress) answers none s))
submit_atomic_example =
    submit_atomic 200 30 answers none (school published in_progress) (started in_progress)
      (false ∷ false ∷ true ∷ []) refl refl

submit_twice_example :
    let s = school published in_progress in
    let first = submit_attempt 200 30 7 answers none (calm s) in
    (first.0 ≡ ok (result_of (graded_row 200 (started in_progress) answers none s)))
    × (first.1 ≡ calm (graded_store 200 (started in_progress) answers none s))
    × (submit_attempt 900 30 7 [] none first.1 ≡ first)
submit_twice_example =
    submit_twice 200 900 30 answers [] none none (school published in_progress)
      (started in_progress) refl refl

create_twice_example :
    let first = create_attempt 200 5 8 none (calm (school published in_progress)) in
    IfOk (IsOpen 5 8) first.0 × IsOk first.0 × (create_attempt 900 5 8 none first.1 ≡ first)
create_twice_example =
    create_twice 200 900 5 8 none none (school published in_progress) (quiz published) refl refl

abbrev edits : List QuestionInput
edits =
    record {
      text = "Why?";
      question_type = "true_false";
      correct_index = negsuc 0;
      explanation = "";
      options =
          record { label = ""; text = " True" }
          ∷ record { label = "b"; text = "False" }
          ∷ record { label = "c"; text = " " }
          ∷ [];
    }
    ∷ []

abbrev stored : List NormalizedQuestion
stored =
    record {
      text = "Why?";
      question_type = "true_false";
      answer_status = unknown;
      explanation = "";
      correct_index = none;
      options = record { label = "A"; text = "True" } ∷ record { label = "b"; text = "False" } ∷ [];
    }
    ∷ []

edits-stored : validate_draft_input edits ≡ ok stored
unfolding validate_draft_input normalize_all normalize is_blank option_bounds kept_options
    normalized
edits-stored = refl

validate_draft_input-IsPersistable_example :
    (edits ≢ []) × (length stored ≡ length edits) × All IsPersistable stored
validate_draft_input-IsPersistable_example =
    validate_draft_input-IsPersistable edits stored edits-stored

abbrev env : Env
env = record { label_le = λ a b. true; is_letter = λ c. true; explainer = none }

publish_draft_lem_example :
    let w = calm (school draft in_progress) in
    let r = publish_draft env 5 7 w in
    (IsError r.0 × OnlyExplains w.store r.1.store)
    ⊎ (IsOk r.0 × IsPublishable env 5 7 w.store × PublishedFrom 5 7 w.store r.1.store)
publish_draft_lem_example = publish_draft_lem env 5 7 (calm (school draft in_progress))

-- it is published
published_run :
    (publish_draft env 5 7 (calm (school draft in_progress))).0
    ≡ ok (record { quiz_id = 5; total_questions = 2 })
unfolding publish_draft get_draft call select_quiz list_questions questions_of options_of is_blank
    explanation_of begin commit
published_run = refl

save_draft_lem_example :
    SaveOutcome env 5 7 edits
      (school draft in_progress)
      (save_draft env 5 7 edits (calm (school draft in_progress)))
save_draft_lem_example = save_draft_lem env 5 7 edits (calm (school draft in_progress))

get_review-submit_attempt_example :
    let s = school published in_progress in
    let w = (submit_attempt 200 30 7 answers none (calm s)).1 in
    (d : ReviewDetail) × ((get_review 30 7 w).0 ≡ ok d)
    × (d.score ≡ or_zero (graded_row 200 (started in_progress) answers none s).score)
    × (map shown d.questions ≡ (1, some 11, some 11, correct) ∷ (2, none, some 22, skipped) ∷ [])
unfolding questions_of
get_review-submit_attempt_example =
    get_review-submit_attempt 200 answers none (school published in_progress) (started in_progress)
      refl refl refl (refl, (refl, tt))
