-- ===== src/Scan/Worker/Process.antt =====
-- ProcessJob and poll (backend/internal/scan/worker.go). The jobs of a poll run one after the other.
use study_mate.Prelude.{ℕ, not, ◌||◌, none, List, [], ◌∷◌, if◌then◌else◌}
use study_mate.Exec.{pure, attempt, ◌>>=◌, ◌>>◌}
use study_mate.Scan.Model.{processing}
use study_mate.Scan.Worker.Model.{
  vision_not_ready, Job, Env, Work, is_pending_status, is_processing, is_settled,
}
use study_mate.Scan.Worker.Repository.{get_job, update_job_status, claim_pending_jobs}
use study_mate.Scan.Worker.Pages.{fail_job}
use study_mate.Scan.Worker.Settle.{should_use_vision, is_gemini_vision}
use study_mate.Scan.Worker.Text.{gather_text, process_text}
use study_mate.Scan.Worker.Vision.{process_job_vision}

unfoldable pub mark_processing : Env → Job → Work Unit
mark_processing env job =
    if is_processing job.status
    then pure tt
    else update_job_status env.now job.id processing 10 none

unfoldable pub run_pipeline : Env → Job → Work Unit
unfolding should_use_vision process_job_vision gather_text process_text
run_pipeline env job =
    if should_use_vision env
    then process_job_vision env job
    else if is_gemini_vision env.ocr_provider
    then fail_job env.now job.id vision_not_ready
    else gather_text env job >>= process_text env job

-- ProcessJob
unfoldable pub process_job : Env → ℕ → Work Unit
unfolding mark_processing run_pipeline
process_job env id = do
  job ← get_job id
  if is_settled job.status || not (is_pending_status job.status || is_processing job.status)
      then pure tt
      else mark_processing env job >> run_pipeline env job

-- one round of poll for each claimed job; its error is only written to the log
unfoldable pub process_all : Env → List Job → Work Unit
unfolding process_job
process_all env [] = pure tt
process_all env (j ∷ js) = do done ← attempt (process_job env j.id); process_all env js

-- poll
unfoldable pub poll : Env → ℕ → Work Unit
unfolding process_all
poll env max_concurrent = do jobs ← claim_pending_jobs env.now max_concurrent; process_all env jobs
