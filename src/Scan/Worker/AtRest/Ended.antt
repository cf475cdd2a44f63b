-- ===== src/Scan/Worker/AtRest/Ended.antt =====
-- The last parts of the worker bring the job to rest.
use study_mate.Prelude.{ℕ, ◌≡◌, refl, String, Bool, true, false, Option, some, none, List}
use study_mate.Exec.{Result, ok, err}
use study_mate.Exec.Calm.{
  Run, Run-call, Run-keep, Run-then, Run-bind, Run-attempt, Run-if, Run-pure,
}
use study_mate.Scan.Model.{pending, needs_strategy, quiz_ready}
use study_mate.Ai.Detect.{PageType, ScanMode}
use study_mate.Scan.Worker.Model.{Error, Job, CachedQuiz, Env, Store, Work}
use study_mate.Scan.Worker.Repository.{
  update_job_quiz_id, update_job_pipeline, update_job_chapter_summary, clear_job_pipeline_text,
}
use study_mate.Scan.Worker.Pages.{fail_job}
use study_mate.Scan.Worker.Settle.{
  final_job_status, quiz_ready_notice, or_fail, save_summary, clear_if, finish_job, requeue,
  settle_quiz, finish_cached,
}
use study_mate.Scan.Worker.Text.{look_in_cache, make_quiz, await_strategy}
use study_mate.Scan.Worker.AtRest.Parts.{
  is_at_rest, HasJob, AtRest, HasJob-with_job, update_job_status-AtRest, delete_page_objects-Run,
  fail_job-Run,
}
use study_mate.Scan.Worker.AtRest.Kept.{lookup-Run, log_cache_event-Run, persist_quiz-Run}

-- what keeps the job's row, and at worst brings it to rest
abbrev pub Going : ℕ → {A : Type 0} → Work A → Type 0
Going id m = Run (HasJob id) (HasJob id) (AtRest id) m

-- what brings the job to rest
abbrev pub Resting : ℕ → {A : Type 0} → Work A → Type 0
Resting id m = Run (HasJob id) (AtRest id) (AtRest id) m

pub or_fail-Run :
    {A : Type 0} (env : Env) (id : ℕ) (r : Result Error A) → Going id (or_fail env id r)
or_fail-Run env id (ok a) = Run-pure a
or_fail-Run env id (err e) = fail_job-Run env.now id (HasJob id) e

-- an update of another column of a job's row, whose error is dropped
clear-Run : (env : Env) (id : ℕ) (b : Bool) → Going id (clear_if env id b)
unfolding clear_job_pipeline_text
clear-Run env id false = Run-pure _
clear-Run env id true = Run-attempt _ (Run-keep _ _ λ s h. HasJob-with_job id id _ s (λ j. refl) h)

summary-Run : (env : Env) (id : ℕ) (t : String) → Going id (save_summary env id t)
unfolding update_job_chapter_summary
summary-Run env id t =
    Run-if _ (Run-pure _)
      (Run-attempt _ (Run-keep _ _ λ s h. HasJob-with_job id id _ s (λ j. refl) h))

final-AtRest : (extract : Bool) → is_at_rest (final_job_status extract) ≡ true
unfolding final_job_status
final-AtRest true = refl
final-AtRest false = refl

notice-Run :
    (id user_id job_id quiz_id : ℕ)
    → Run (AtRest id) (AtRest id) (AtRest id) (quiz_ready_notice user_id job_id quiz_id)
unfolding quiz_ready_notice
notice-Run id user_id job_id quiz_id = Run-keep _ _ λ s h. h

module _ (env : Env) (job : Job) where
  pub finish_job-Run :
      (refs : List String) (clears extract : Bool) (made : ℕ × String)
      → Resting job.id (finish_job env job refs clears extract made)
  unfolding finish_job
  finish_job-Run refs clears extract (quiz_id, summary) =
      Run-bind _ _ (delete_page_objects-Run env.now job.id refs (AtRest job.id)) λ _.
        Run-bind _ _ (clear-Run env job.id clears) λ _.
          Run-bind _ _ (summary-Run env job.id summary) λ _.
            Run-then (AtRest job.id) _ _
              (update_job_status-AtRest env.now job.id (final_job_status extract) 100 none
                (AtRest job.id) (final-AtRest extract))
              λ _. notice-Run job.id job.user_id job.id quiz_id

  pub requeue-Run : Resting job.id (requeue env job.id)
  unfolding requeue
  requeue-Run =
      Run-then (AtRest job.id) _ _
        (Run-attempt _
          (update_job_status-AtRest env.now job.id pending 40 none (AtRest job.id) refl))
        λ _. Run-pure tt

  pub fails : {A : Type 0} (e : Error) → Resting job.id (fail_job {A = A} env.now job.id e)
  fails e = fail_job-Run env.now job.id (AtRest job.id) e

  pub settle_quiz-Run :
      (refs : List String) (mode : ScanMode) (r : Result Error (ℕ × String))
      → Resting job.id (settle_quiz env job refs mode r)
  unfolding settle_quiz
  settle_quiz-Run refs mode (ok made) = finish_job-Run refs true _ made
  settle_quiz-Run refs mode (err e) = Run-if _ requeue-Run (fails e)

  update_job_quiz_id-Run :
      (quiz_id : ℕ) (R : Store → Type 0)
      → Run (HasJob job.id) (HasJob job.id) R (update_job_quiz_id env.now job.id quiz_id)
  unfolding update_job_quiz_id
  update_job_quiz_id-Run quiz_id R =
      Run-call _ _ λ s h. HasJob-with_job job.id job.id _ s (λ j. refl) h

  finish_cached-Run :
      (refs : List String) (c : CachedQuiz) → Resting job.id (finish_cached env job refs c)
  unfolding finish_cached
  finish_cached-Run refs c =
      Run-bind _ _ (delete_page_objects-Run env.now job.id refs (AtRest job.id)) λ _.
        Run-bind _ _ (log_cache_event-Run job.id env job.id c.question_count true (AtRest job.id))
          λ _. Run-bind _ _ (update_job_quiz_id-Run c.quiz_id (AtRest job.id)) λ _.
            Run-bind _ _ (clear-Run env job.id true) λ _.
              Run-then (AtRest job.id) _ _
                (update_job_status-AtRest env.now job.id quiz_ready 100 none (AtRest job.id) refl)
                λ _. notice-Run job.id job.user_id job.id c.quiz_id

  pub look_in_cache-Run :
      (hash : String) (mode : ScanMode) → Going job.id (look_in_cache env job hash mode)
  unfolding look_in_cache
  look_in_cache-Run hash mode =
      Run-if _
        (Run-bind _ _ (Run-attempt _ (lookup-Run job.id env hash))
          λ found. or_fail-Run env job.id found)
        (Run-pure _)

  pub make_quiz-Run :
      (refs : List String) (text hash : String) (page_type : PageType) (mode : ScanMode)
      (c : Option CachedQuiz)
      → Resting job.id (make_quiz env job refs text hash page_type mode c)
  unfolding make_quiz
  make_quiz-Run refs text hash page_type mode (some c) = finish_cached-Run refs c
  make_quiz-Run refs text hash page_type mode none =
      Run-bind _ _ (Run-attempt _ (persist_quiz-Run job.id env job hash text page_type mode))
        λ made. settle_quiz-Run refs mode made

  update_job_pipeline-Run :
      (page_type : PageType) (text : String)
      → Run
          (HasJob job.id)
          (HasJob job.id)
          (HasJob job.id)
          (update_job_pipeline env.now job.id page_type text)
  unfolding update_job_pipeline
  update_job_pipeline-Run page_type text =
      Run-call _ _ λ s h. HasJob-with_job job.id job.id _ s (λ j. refl) h

  pub await_strategy-Run :
      (page_type : PageType) (text : String)
      → Resting job.id (await_strategy env job page_type text)
  unfolding await_strategy
  await_strategy-Run page_type text =
      Run-bind _ _ (Run-attempt _ (update_job_pipeline-Run page_type text)) λ kept.
        Run-bind _ _ (or_fail-Run env job.id kept)
          λ _. update_job_status-AtRest env.now job.id needs_strategy 45 none (AtRest job.id) refl
