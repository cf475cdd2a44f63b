-- ===== src/Scan/Worker/Settle.antt =====
-- How a job of the worker ends (backend/internal/scan/worker.go).
use study_mate.Prelude.{
  ℕ, String, Bool, true, false, not, ◌||◌, ◌&&◌, none, List, ◌∷◌, ◌==◌, ltb, str_eq, length,
  trim_space, to_lower, if◌then◌else◌,
}
use study_mate.Exec.{Result, ok, err, call, pure, attempt, ◌>>=◌, ◌>>◌}
use study_mate.Scan.Model.{JobStatus, pending, review_ready, quiz_ready}
use study_mate.Ai.Detect.{ScanMode}
use study_mate.Scan.Worker.Model.{
  Error, rate_limited, too_many_pages, notifier_failed, Job, Page, CachedQuiz, Env, Work,
}
use study_mate.Scan.Worker.Repository.{
  list_pages, update_job_status, update_job_quiz_id, update_job_chapter_summary,
  clear_job_pipeline_text,
}
use study_mate.Scan.Worker.Cache.{log_cache_event}
use study_mate.Scan.Worker.Pages.{delete_page_objects, fail_job}
use study_mate.Scan.Worker.Persist.{is_existing}

-- whether a text is the provider gemini_vision, in any case
abbrev pub is_gemini_vision : String → Bool
is_gemini_vision t = str_eq (to_lower (trim_space t)) "gemini_vision"

-- shouldUseVisionPipeline
unfoldable pub should_use_vision : Env → Bool
should_use_vision env =
    env.has_vision && (env.use_gemini_vision || is_gemini_vision env.ocr_provider)

-- finalJobStatus
unfoldable pub final_job_status : Bool → JobStatus
final_job_status true = review_ready
final_job_status false = quiz_ready

-- the Notifier
unfoldable pub quiz_ready_notice : ℕ → ℕ → ℕ → Work Unit
quiz_ready_notice user_id job_id quiz_id =
    call notifier_failed λ s. (ok tt, record s { notices = (user_id, job_id, quiz_id) ∷ s.notices })

-- `if err != nil { return w.failJob(ctx, jobID, err) }`
abbrev pub or_fail : {A : Type 0} → Env → ℕ → Result Error A → Work A
or_fail env id (err e) = fail_job env.now id e
or_fail env id (ok a) = pure a

abbrev pub save_summary : Env → ℕ → String → Work (Result Error Unit)
save_summary env id summary =
    if str_eq summary ""
    then pure (ok tt)
    else attempt (update_job_chapter_summary env.now id summary)

abbrev pub clear_if : Env → ℕ → Bool → Work (Result Error Unit)
clear_if env id false = pure (ok tt)
clear_if env id true = attempt (clear_job_pipeline_text env.now id)

-- the end of both pipelines; the text of the pipeline is cleared in one of them
unfoldable pub finish_job : Env → Job → List String → Bool → Bool → ℕ × String → Work Unit
unfolding final_job_status quiz_ready_notice
finish_job env job refs clears extract (quiz_id, summary) = do
  delete_page_objects refs
  cleared ← clear_if env job.id clears
  saved ← save_summary env job.id summary
  update_job_status env.now job.id (final_job_status extract) 100 none
  quiz_ready_notice job.user_id job.id quiz_id

-- the call of the model is refused by the limiter: the job waits again
unfoldable pub requeue : Env → ℕ → Work Unit
requeue env id = do waiting ← attempt (update_job_status env.now id pending 40 none); pure tt

abbrev is_rate_limited : Error → Bool
is_rate_limited rate_limited = true
is_rate_limited _ = false

unfoldable pub settle_quiz :
    Env → Job → List String → ScanMode → Result Error (ℕ × String) → Work Unit
unfolding finish_job requeue
settle_quiz env job refs mode (ok made) = finish_job env job refs true (is_existing mode) made
settle_quiz env job refs mode (err e) =
    if is_rate_limited e then requeue env job.id else fail_job env.now job.id e

-- a hit of the cache
unfoldable pub finish_cached : Env → Job → List String → CachedQuiz → Work Unit
unfolding quiz_ready_notice
finish_cached env job refs cached = do
  delete_page_objects refs
  logged ← log_cache_event env job.id cached.question_count true
  update_job_quiz_id env.now job.id cached.quiz_id
  cleared ← attempt (clear_job_pipeline_text env.now job.id)
  update_job_status env.now job.id quiz_ready 100 none
  quiz_ready_notice job.user_id job.id cached.quiz_id

-- the limit of pages, where there is one
unfoldable pub within_limit : Env → Job → List Page → Work (List Page)
within_limit env job pages =
    if not (env.max_pages == 0) && ltb env.max_pages (length pages)
    then fail_job env.now job.id too_many_pages
    else pure pages

-- the pages of a job, or its failure
unfoldable pub counted_pages : Env → Job → Work (List Page)
unfolding within_limit
counted_pages env job = do
  listed ← attempt (list_pages job.id)
  pages ← or_fail env job.id listed
  within_limit env job pages
