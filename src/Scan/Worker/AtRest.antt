-- ===== src/Scan/Worker/AtRest.antt =====
-- ProcessJob with no failing call: the job comes to rest (backend/internal/scan/worker.go).
pub mod Parts
mod Kept
mod Ended
use study_mate.Prelude.{
  ℕ, suc, ◌≡◌, refl, ◌||◌, ◌&&◌, not, String, Bool, true, false, Option, some, none, List, [], ◌∷◌,
  ◌==◌, ==_iff, find-holds, subst, arith, if◌then◌else◌,
}
use study_mate.Exec.{Result, ok, err, World, pure, raise, attempt, call, ◌>>=◌, ◌>>◌}
use study_mate.Exec.Calm.{
  Run, Ends, run_rules, Run-call, Run-keep, Run-then, Run-bind, Run-attempt, Run-if, Run-pure,
  Run-raise,
}
use study_mate.Scan.Model.{
  JobStatus, processing, pending, ocr_complete, needs_strategy, review_ready, quiz_ready,
}
use study_mate.Ai.Detect.{PageType, ScanMode}
use study_mate.Scan.Worker.Model.{
  Error, Job, Page, CachedQuiz, GenerateResult, Env, Store, Work, is_pending_status, is_processing,
  is_settled, rate_limited,
}
use study_mate.Scan.Worker.Repository.{
  job_of, get_job, update_job_status, update_job_quiz_id, update_job_pipeline,
  update_job_chapter_summary, clear_job_pipeline_text, list_pages,
}
use study_mate.Scan.Worker.Pages.{fail_job, Image, refs_of, text_or_empty}
use study_mate.Scan.Worker.Settle.{
  final_job_status, quiz_ready_notice, or_fail, save_summary, clear_if, finish_job, requeue,
  settle_quiz, finish_cached, counted_pages, within_limit,
}
use study_mate.Scan.Worker.Text.{
  look_in_cache, make_quiz, await_strategy, process_text, some_text, gather_text,
}
use study_mate.Scan.Worker.Vision.{
  settle_vision, write_vision, image_refs, ask_vision, some_images, process_job_vision,
}
use study_mate.Scan.Worker.Process.{mark_processing, run_pipeline, process_job}
use Parts.{
  is_at_rest, HasJob, AtRest, HasJob-with_job, update_job_status-Run, update_job_status-AtRest,
  delete_page_objects-Run, list_pages-Run, fail_job-Run,
}
use Kept.{
  process_pages-Run, load_pages-Run, lookup-Run, log_cache_event-Run, allowed-Run,
  log_generation-Run, persist_quiz-Run, persist_vision_quiz-Run,
}
use Ended.{
  Going, Resting, or_fail-Run, finish_job-Run, requeue-Run, await_strategy-Run, make_quiz-Run,
  look_in_cache-Run, fails,
}

module _ (env : Env) (job : Job) where
  process_text-Run : (read : String × List String) → Resting job.id (process_text env job read)
  unfolding process_text
  process_text-Run (text, refs) =
      Run-bind _ _
        (update_job_status-Run env.now job.id job.id ocr_complete 50 none (AtRest job.id))
        λ _. Run-if _ (await_strategy-Run env job _ text) (
          Run-bind _ _ (look_in_cache-Run env job _ _) λ c. make_quiz-Run env job refs text _ _ _ c)

  within_limit-Run : (pages : List Page) → Going job.id (within_limit env job pages)
  unfolding within_limit
  within_limit-Run pages = Run-if _ (fail_job-Run env.now job.id (HasJob job.id) _) (Run-pure pages)

  counted_pages-Run : Going job.id (counted_pages env job)
  unfolding counted_pages
  counted_pages-Run =
      Run-bind _ _ (Run-attempt _ (list_pages-Run env.now job.id job.id))
        λ listed. Run-bind _ _ (or_fail-Run env job.id listed) λ pages. within_limit-Run pages

  some_text-Run : (read : List String × List String) → Going job.id (some_text env job read)
  unfolding some_text
  some_text-Run (texts, []) = fail_job-Run env.now job.id (HasJob job.id) _
  some_text-Run (texts, r ∷ refs) = Run-pure _

  gather_text-Run : Going job.id (gather_text env job)
  unfolding gather_text
  gather_text-Run =
      Run-if _
        (Run-bind _ _ (Run-attempt _ (list_pages-Run env.now job.id job.id)) λ listed.
          Run-bind _ _ (or_fail-Run env job.id listed)
            λ pages. Run-pure (text_or_empty job.pipeline_text, refs_of pages))
        (Run-bind _ _ counted_pages-Run λ pages.
          Run-bind _ _ (process_pages-Run job.id env job pages (AtRest job.id))
            λ read. some_text-Run read)

  write_vision-Run :
      (images : List Image) (extract : Bool) (r : GenerateResult)
      → Resting job.id (write_vision env job images extract r)
  unfolding write_vision
  write_vision-Run images extract r =
      Run-bind _ _ (Run-attempt _ (persist_vision_quiz-Run job.id env job _ r extract)) λ made.
        Run-bind _ _ (or_fail-Run env job.id made)
          λ quiz. finish_job-Run env job (image_refs images) false extract quiz

  settle_vision-Run :
      (images : List Image) (r : Result Error GenerateResult)
      → Resting job.id (settle_vision env job images r)
  unfolding settle_vision
  settle_vision-Run images r =
      Run-bind _ _ (log_generation-Run job.id env.vision_provider job.id r (AtRest job.id))
        λ _. Run-bind _ _ (or_fail-Run env job.id r) λ result. write_vision-Run images _ result

  ask_vision-Run :
      (images : List Image) (granted : Bool) → Resting job.id (ask_vision env job images granted)
  unfolding ask_vision
  ask_vision-Run images false = requeue-Run env job
  ask_vision-Run images true =
      Run-bind _ _ (Run-attempt _ (Run-keep _ _ λ s h. h)) λ reply. settle_vision-Run images reply

  some_images-Run : (images : List Image) → Going job.id (some_images env job images)
  unfolding some_images
  some_images-Run [] = fail_job-Run env.now job.id (HasJob job.id) _
  some_images-Run (i ∷ is) = Run-pure tt

  process_job_vision-Run : Resting job.id (process_job_vision env job)
  unfolding process_job_vision
  process_job_vision-Run = Run-bind _ _ counted_pages-Run λ pages.
      Run-bind _ _ (load_pages-Run job.id env job pages [] (AtRest job.id)) λ images.
        Run-bind _ _ (some_images-Run images) λ _.
          Run-bind _ _
            (update_job_status-Run env.now job.id job.id ocr_complete 50 none (AtRest job.id))
            λ _.
              Run-bind _ _ (allowed-Run job.id env job.user_id (AtRest job.id))
                λ granted. ask_vision-Run images granted

  mark_processing-Run : Going job.id (mark_processing env job)
  unfolding mark_processing
  mark_processing-Run =
      Run-if _ (Run-pure tt)
        (update_job_status-Run env.now job.id job.id processing 10 none (AtRest job.id))

  run_pipeline-Run : Resting job.id (run_pipeline env job)
  unfolding run_pipeline
  run_pipeline-Run =
      Run-if _ process_job_vision-Run
        (Run-if _ (fails env job _) (Run-bind _ _ gather_text-Run λ read. process_text-Run read))

  processed : Resting job.id (mark_processing env job >> run_pipeline env job)
  processed = Run-bind _ _ mark_processing-Run λ _. run_pipeline-Run

Ends-AtRest :
    {A : Type 0} (id : ℕ) (r : Result Error A) (s : Store)
    → Ends (AtRest id) (AtRest id) r s
    → AtRest id s
Ends-AtRest id (ok a) s h = h
Ends-AtRest id (err e) s h = h

rested :
    (env : Env) (s : Store) (job : Job)
    → job_of s job.id ≡ some job
    → (is_settled job.status || not (is_pending_status job.status || is_processing job.status))
      ≡ false
    → AtRest job.id (process_job env job.id (record { store = s; faults = [] })).1.store
unfolding process_job get_job call
rested env s job found waiting =
    rw (found, waiting)
      (Ends-AtRest job.id _ _
        ((processed env job).at (record { store = s; faults = [] }) refl (job, found)).1)

waits :
    (st : JobStatus)
    → (is_pending_status st || is_processing st) ≡ true
    → (is_settled st || not (is_pending_status st || is_processing st)) ≡ false
waits st h = ground (arith, h)

-- With no failing call, ProcessJob brings a job that is pending, queued or claimed to rest: afterwards it
-- waits for a worker again, waits for the user's strategy, is ready or has failed.
pub process_job-AtRest :
    (env : Env) (id : ℕ) (s : Store) (job : Job)
    → job_of s id ≡ some job
    → (is_pending_status job.status || is_processing job.status) ≡ true
    → AtRest id (process_job env id (record { store = s; faults = [] })).1.store
process_job-AtRest env id s job found waiting =
    let same = (==_iff job.id id).0 (find-holds (λ j. j.id == id) s.jobs job found) in
    subst
      (λ n.
        job_of s n ≡ some job
        → AtRest n (process_job env n (record { store = s; faults = [] })).1.store)
      same (λ h. rested env s job h (waits job.status waiting)) found
