-- ===== src/Scan/Worker/AtRest/Parts.antt =====
-- Which parts of the worker keep a job's row, and which bring it to rest.
use study_mate.Prelude.{
  ℕ, ◌≡◌, refl, ◌||◌, String, Bool, true, Option, some, List, [], ◌∷◌, ◌==◌, find-update,
  find-holds, if◌then◌else◌, ◌∙◌,
}
use study_mate.Exec.{Result, ok, err}
use study_mate.Exec.Calm.{
  Run, Run-call, Run-keep, Run-then, Run-bind, Run-attempt, Run-if, Run-pure, Run-raise,
}
use study_mate.Scan.Model.{JobStatus, failed}
use study_mate.Scan.Worker.Model.{Error, Job, Page, Store, is_pending_status, is_settled}
use study_mate.Scan.Worker.Repository.{
  job_of, with_job, update_job_status, list_pages, delete_object,
}
use study_mate.Scan.Worker.Pages.{delete_page_objects, delete_listed, fail_job, refs_of}

-- the states from which only a user's choice or a later claim moves a job
abbrev pub is_at_rest : JobStatus → Bool
is_at_rest s = is_settled s || is_pending_status s

abbrev pub HasJob : ℕ → Store → Type 0
HasJob id s = (j : Job) × (job_of s id ≡ some j)

abbrev pub AtRest : ℕ → Store → Type 0
AtRest id s = (j : Job) × (job_of s id ≡ some j) × (is_at_rest j.status ≡ true)

-- a job's row after an update of some row
updated : ℕ → Job → (Job → Job) → Job
updated other j f = if j.id == other then f j else j

pub HasJob-with_job :
    (id other : ℕ) (f : Job → Job) (s : Store)
    → ((j : Job) → (f j).id ≡ j.id)
    → HasJob id s
    → HasJob id (with_job other f s)
unfolding updated
HasJob-with_job id other f s keep (j, h) = (
  updated other j f,
  find-update (λ j. j.id == id) (λ j. j.id == other) f s.jobs j (λ y. rw (keep y) refl) h,
)

job_of-with_job :
    (id : ℕ) (f : Job → Job) (s : Store) (j : Job)
    → ((j : Job) → (f j).id ≡ j.id)
    → job_of s id ≡ some j
    → job_of (with_job id f s) id ≡ some (f j)
job_of-with_job id f s j keep h =
    find-update (λ j. j.id == id) (λ j. j.id == id) f s.jobs j (λ y. rw (keep y) refl) h
    ∙ rw (find-holds (λ j. j.id == id) s.jobs j h) refl

module _ (now id : ℕ) where
  pub update_job_status-Run :
      (other : ℕ) (status : JobStatus) (progress : ℕ) (message : Option Error) (R : Store → Type 0)
      → Run (HasJob id) (HasJob id) R (update_job_status now other status progress message)
  unfolding update_job_status
  update_job_status-Run other status progress message R =
      Run-call _ _ λ s h. HasJob-with_job id other _ s (λ j. refl) h

  pub update_job_status-AtRest :
      (status : JobStatus) (progress : ℕ) (message : Option Error) (R : Store → Type 0)
      → is_at_rest status ≡ true
      → Run (HasJob id) (AtRest id) R (update_job_status now id status progress message)
  unfolding update_job_status
  update_job_status-AtRest status progress message R rest =
      Run-call _ _ λ s (j, h). (_, job_of-with_job id _ s j (λ j. refl) h, rest)

  pub delete_page_objects-Run :
      (refs : List String) (R : Store → Type 0)
      → Run (HasJob id) (HasJob id) R (delete_page_objects refs)
  unfolding delete_page_objects delete_object
  delete_page_objects-Run [] R = Run-pure tt
  delete_page_objects-Run (ref ∷ rest) R =
      Run-bind _ _ (Run-if _ (Run-pure _) (Run-attempt _ (Run-keep _ _ λ s h. h)))
        λ _. delete_page_objects-Run rest R

  delete_listed-Run :
      (r : Result Error (List Page)) (R : Store → Type 0)
      → Run (HasJob id) (HasJob id) R (delete_listed r)
  unfolding delete_listed
  delete_listed-Run (err e) R = Run-pure tt
  delete_listed-Run (ok ps) R = delete_page_objects-Run (refs_of ps) R

  pub list_pages-Run : (other : ℕ) → Run (HasJob id) (HasJob id) (HasJob id) (list_pages other)
  unfolding list_pages
  list_pages-Run other = Run-keep _ _ λ s h. h

  pub fail_job-Run :
      {A : Type 0} (K : Store → Type 0) (e : Error)
      → Run (HasJob id) K (AtRest id) (fail_job {A = A} now id e)
  unfolding fail_job
  fail_job-Run K e = Run-bind _ _ (Run-attempt _ (list_pages-Run id)) λ pages.
      Run-bind _ _ (delete_listed-Run pages (AtRest id)) λ _.
        Run-then (AtRest id) _ _
          (Run-attempt _ (update_job_status-AtRest failed 0 (some e) (AtRest id) refl))
          λ _. Run-raise e
