-- ===== src/Quiz/Publishing.antt =====
-- PublishDraft and explainForQuestion (backend/internal/quiz/review.go).
pub mod Guarded
use study_mate.Prelude.{
  ℕ, String, Bool, true, false, not, ◌&&◌, Option, none, some, List, [], ◌∷◌, map, ◌==◌, length,
  any, find, update, is_blank, if◌then◌else◌,
}
use study_mate.Exec.{ok, pure, call, transaction, guard, ◌>>=◌, ◌>>◌}
use study_mate.Scan.Model.{quiz_ready}
use study_mate.Quiz.Model.{
  published, set, is_draft, database, quiz_not_draft, draft_empty, answers_incomplete, Quiz,
}
use study_mate.Quiz.Submit.{begin, commit}
use study_mate.Quiz.Drafts.{detect_content_language}
use study_mate.Quiz.Editing.{
  ExplainRequest, Env, DraftOption, DraftQuestion, DraftDetail, is_some_id, get_draft,
}
use study_mate.Quiz.Saving.{is_in, question_ids, insert_explanation, language_code}

pub record PublishResult : Type 0 where
  pub quiz_id : ℕ
  pub total_questions : ℕ

-- correctOption
unfoldable pub correct_option : List DraftOption → Option DraftOption
correct_option os = find (λ o. o.is_correct) os

abbrev pub is_there {ℓ} : {A : Type ℓ} → Option A → Bool
is_there none = false
is_there (some a) = true

unfoldable pub has_answer : DraftQuestion → Bool
unfolding correct_option
has_answer q = is_there (correct_option q.options)

abbrev or_nothing : Option String → String
or_nothing none = ""
or_nothing (some s) = s

abbrev asked :
    Env → DraftQuestion → Option DraftOption → Option (ExplainRequest → Option String) → String
asked env q none explainer = ""
asked env q (some o) none = ""
asked env q (some o) (some explain) = or_nothing (
    explain (record {
      question_text = q.text;
      question_type = q.question_type;
      options = map (λ (x : DraftOption). (x.label, x.text)) q.options;
      correct_label = o.label;
      correct_text = o.text;
      language = detect_content_language env.is_letter q.text;
    }))

-- explainForQuestion: no text without an answer, an explainer or its reply
unfoldable pub explain_for_question : Env → DraftQuestion → String
unfolding correct_option
explain_for_question env q = asked env q (correct_option q.options) env.explainer

-- one round of the loop over the questions
unfoldable pub explain_missing : Env → DraftQuestion → Quiz Unit
unfolding explain_for_question
explain_missing env q =
    let text = explain_for_question env q in
    if not (is_blank q.explanation)
    then pure tt
    else if is_blank text
    then pure tt
    else insert_explanation q.id text (language_code env q.text)

unfoldable pub explain_all : Env → List DraftQuestion → Quiz Unit
unfolding explain_missing
explain_all env [] = pure tt
explain_all env (q ∷ rest) = do explain_missing env q; explain_all env rest

-- UPDATE quizzes SET status = 'published'
unfoldable pub set_published : ℕ → Quiz Unit
set_published quiz_id = call database λ s. (
  ok tt,
  record s {
    quizzes = update (λ q. q.id == quiz_id) (λ q. record q { status = published }) s.quizzes;
  },
)

-- UPDATE questions SET answer_status = 'set'
unfoldable pub set_answered : ℕ → Quiz Unit
set_answered quiz_id = call database λ s. (
  ok tt,
  record s {
    questions =
        update (λ q. is_in (question_ids s quiz_id) q.id) (λ q. record q { answer_status = set })
          s.questions;
  },
)

-- UPDATE scan_jobs SET status = 'quiz_ready', progress = 100
unfoldable pub set_ready : ℕ → ℕ → Quiz Unit
set_ready quiz_id user_id = call database λ s. (
  ok tt,
  record s {
    scan_jobs =
        update (λ j. is_some_id quiz_id j.quiz_id && j.user_id == user_id)
          (λ j. record j { status = quiz_ready; progress = 100 }) s.scan_jobs;
  },
)

-- the body of the transaction
unfoldable pub publish_body : ℕ → ℕ → Quiz Unit
unfolding set_published set_answered set_ready
publish_body quiz_id user_id = do
  begin
  set_published quiz_id
  set_answered quiz_id
  set_ready quiz_id user_id
  commit

-- the checks of PublishDraft
unfoldable pub checked_draft : Env → ℕ → ℕ → Quiz DraftDetail
unfolding has_answer
checked_draft env quiz_id user_id = do
  draft ← get_draft env quiz_id user_id
  guard (is_draft draft.status) quiz_not_draft
  guard (not (length draft.questions == 0)) draft_empty
  guard (not (any (λ q. not (has_answer q)) draft.questions)) answers_incomplete
  pure draft

-- the rest of it
unfoldable pub publish_checked : Env → ℕ → ℕ → DraftDetail → Quiz PublishResult
unfolding explain_all publish_body
publish_checked env quiz_id user_id draft = do
  explain_all env draft.questions
  transaction (publish_body quiz_id user_id)
  pure (record { quiz_id = quiz_id; total_questions = length draft.questions })

-- PublishDraft
unfoldable pub publish_draft : Env → ℕ → ℕ → Quiz PublishResult
unfolding checked_draft publish_checked
publish_draft env quiz_id user_id = do
  draft ← checked_draft env quiz_id user_id
  publish_checked env quiz_id user_id draft
