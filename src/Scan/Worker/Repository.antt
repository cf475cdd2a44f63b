-- ===== src/Scan/Worker/Repository.antt =====
-- The queries of backend/internal/scan/repository.go and worker_repository.go that the worker makes,
-- and its calls of the object storage.
use study_mate.Prelude.{
  sort_by, ℕ, suc, ◌+◌, ◌*◌, String, Bool, true, not, ◌||◌, ◌&&◌, Option, none, some, List, [], ◌∷◌,
  ◌++◌, ◌==◌, ltb, str_eq, is_blank, take, any, find, select, update, map, if◌then◌else◌,
}
use study_mate.Exec.{Result, ok, err, call}
use study_mate.Scan.Model.{JobStatus, processing, pending}
use study_mate.Ai.Detect.{PageType}
use study_mate.Ai.Response.{QuestionType}
use study_mate.Quiz.Model.{AnswerStatus, QuizStatus}
use study_mate.Quiz.Drafts.{Language}
use study_mate.Scan.Worker.Model.{
  Error, database, storage, no_pages, Job, Page, Quiz, Source, Question, QuestionOption,
  Explanation, Store, Work, is_pending_status, is_processing,
}

abbrev pub or_else : {A : Type 0} → Error → Option A → Result Error A
or_else e none = err e
or_else e (some a) = ok a

abbrev pub job_of : Store → ℕ → Option Job
job_of s id = find (λ j. j.id == id) s.jobs

-- GetJob
unfoldable pub get_job : ℕ → Work Job
get_job id = call database λ s. (or_else database (job_of s id), s)

-- an update of one row of scan_jobs
abbrev pub with_job : ℕ → (Job → Job) → Store → Store
with_job id f s = record s { jobs = update (λ j. j.id == id) f s.jobs }

-- UpdateJobStatus
unfoldable pub update_job_status : ℕ → ℕ → JobStatus → ℕ → Option Error → Work Unit
update_job_status now id status progress message = call database λ s. (
  ok tt,
  with_job id
      (λ j. record j {
        status = status;
        progress = progress;
        error_message = message;
        updated_at = now;
      })
      s,
)

-- UpdateJobQuizID
unfoldable pub update_job_quiz_id : ℕ → ℕ → ℕ → Work Unit
update_job_quiz_id now id quiz_id =
    call database
      λ s. (ok tt, with_job id (λ j. record j { quiz_id = some quiz_id; updated_at = now }) s)

-- UpdateJobPipeline
unfoldable pub update_job_pipeline : ℕ → ℕ → PageType → String → Work Unit
update_job_pipeline now id page_type text = call database λ s. (
  ok tt,
  with_job id
      (λ j. record j {
        detected_page_type = some page_type;
        pipeline_text = some text;
        updated_at = now;
      })
      s,
)

-- UpdateJobStrategy
unfoldable pub update_job_strategy : ℕ → ℕ → String → Work Unit
update_job_strategy now id strategy = call database λ s. (
  ok tt,
  with_job id
      (λ j. record j {
        generation_strategy = some strategy;
        status = pending;
        progress = 10;
        updated_at = now;
      })
      s,
)

-- UpdateJobChapterSummary
unfoldable pub update_job_chapter_summary : ℕ → ℕ → String → Work Unit
update_job_chapter_summary now id summary =
    call database λ s.
      (ok tt, with_job id (λ j. record j { chapter_summary = some summary; updated_at = now }) s)

-- ClearJobPipelineText
unfoldable pub clear_job_pipeline_text : ℕ → ℕ → Work Unit
clear_job_pipeline_text now id =
    call database
      λ s. (ok tt, with_job id (λ j. record j { pipeline_text = none; updated_at = now }) s)

-- the jobs that wait, and those that a worker left half an hour ago
abbrev pub is_claimable : ℕ → Job → Bool
is_claimable now j =
    is_pending_status j.status || (is_processing j.status && ltb (j.updated_at + 30 * 60) now)

abbrev pub claimed : ℕ → Job → Job
claimed now j = record j { status = processing; progress = 5; updated_at = now }

abbrev pub picked_jobs : ℕ → ℕ → Store → List Job
picked_jobs now limit s =
    take (if limit == 0 then 1 else limit)
      (sort_by (λ j. j.created_at) (select (is_claimable now) s.jobs))

abbrev pub has_id : List Job → ℕ → Bool
has_id js id = any (λ j. j.id == id) js

-- ClaimPendingJobs
unfoldable pub claim_pending_jobs : ℕ → ℕ → Work (List Job)
unfolding sort_by
claim_pending_jobs now limit = call database λ s.
    let picked = picked_jobs now limit s in
    (
      ok (map (claimed now) picked),
      record s { jobs = update (λ j. has_id picked j.id) (claimed now) s.jobs },
    )

abbrev pub or_no_pages : List Page → Result Error (List Page)
or_no_pages [] = err no_pages
or_no_pages (p ∷ ps) = ok (p ∷ ps)

abbrev pub pages_of : Store → ℕ → List Page
pages_of s id = sort_by (λ p. p.page_no) (select (λ p. p.scan_job_id == id) s.pages)

-- ListPagesByJobID
unfoldable pub list_pages : ℕ → Work (List Page)
unfolding sort_by
list_pages id = call database λ s. (or_no_pages (pages_of s id), s)

-- UpdatePageProcessed, which is UpdatePageType
unfoldable pub update_page_processed : ℕ → String → ℕ → PageType → Work Unit
update_page_processed id hash confidence page_type = call database λ s. (
  ok tt,
  record s {
    pages =
        update (λ p. p.id == id)
          (λ p. record p {
            content_hash = some hash;
            ocr_confidence = some confidence;
            processed = true;
            page_type = some page_type;
          })
          s.pages;
  },
)

-- CreateQuizRecordWithStatus
unfoldable pub create_quiz_record : Option ℕ → String → Bool → ℕ → QuizStatus → Work ℕ
create_quiz_record chapter_id hash extracted total status = call database λ s.
    let row : Quiz = record {
      id = s.next_id;
      chapter_id = chapter_id;
      content_hash = hash;
      extracted = extracted;
      total_questions = total;
      status = status;
    } in
    (ok s.next_id, record s { quizzes = row ∷ s.quizzes; next_id = suc s.next_id })

-- CreateQuestionWithAnswer
unfoldable pub create_question :
    Option ℕ → String → String → QuestionType → Source → String → AnswerStatus → Work ℕ
create_question chapter_id hash text question_type source difficulty answer_status =
    call database λ s.
      let row : Question = record {
        id = s.next_id;
        chapter_id = chapter_id;
        content_hash = hash;
        question_type = question_type;
        question_text = text;
        difficulty = if is_blank difficulty then "medium" else difficulty;
        source_type = source;
        answer_status = answer_status;
      } in
      (ok s.next_id, record s { questions = row ∷ s.questions; next_id = suc s.next_id })

-- CreateQuestionOption
unfoldable pub create_question_option : ℕ → String → String → Bool → Work Unit
create_question_option question_id label text is_correct = call database λ s.
    let row : QuestionOption = record {
      question_id = question_id;
      option_label = label;
      option_text = text;
      is_correct = is_correct;
    } in
    (ok tt, record s { options = s.options ++ (row ∷ []) })

-- CreateQuestionExplanation
unfoldable pub create_question_explanation : ℕ → String → Language → Work Unit
create_question_explanation question_id text language = call database λ s.
    let row : Explanation = record {
      question_id = question_id;
      explanation_text = text;
      language = language;
    } in
    (ok tt, record s { explanations = row ∷ s.explanations })

-- LinkQuestionToQuiz; UNIQUE (quiz_id, order_no)
unfoldable pub link_question : ℕ → ℕ → ℕ → Work Unit
link_question quiz_id question_id order_no = call database λ s.
    if any (λ l. l.quiz_id == quiz_id && l.order_no == order_no) s.links
    then (err database, s)
    else (
      ok tt,
      record s {
        links =
            s.links
            ++ (record { quiz_id = quiz_id; question_id = question_id; order_no = order_no } ∷ []);
      },
    )

abbrev bytes_of : Option (String × List ℕ) → Result Error (List ℕ)
bytes_of none = err storage
bytes_of (some (key, bytes)) = ok bytes

-- GetObject
unfoldable pub get_object : String → Work (List ℕ)
get_object key = call storage λ s. (bytes_of (find (λ o. str_eq o.0 key) s.objects), s)

-- DeleteObject
unfoldable pub delete_object : String → Work Unit
delete_object key = call storage λ s.
    (ok tt, record s { objects = select (λ (o : String × List ℕ). not (str_eq o.0 key)) s.objects })
