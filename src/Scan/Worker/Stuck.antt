-- ===== src/Scan/Worker/Stuck.antt =====
-- A job whose last change of status fails (backend/internal/scan/worker.go, worker_repository.go).
use study_mate.Prelude.{
  any-sort_by, any-take, any-update, find, find-update, find-holds, ==_iff, update, subst, ap, some,
  none, ℕ, ◌≡◌, refl, String, Bool, true, false, List, [], ◌∷◌, ◌==◌, str_eq, any, select, map, All,
  arith, Bool-cases, inl, inr, ◌∙◌,
}
use study_mate.Exec.{Result, ok, err, call, pure, World, and_then, ◌>>=◌, ◌>>◌}
use study_mate.Exec.Keeps.{Keeps, Keeps-pure, Keeps-bind, Keeps-if, Keeps-attempt, Keeps-call}
use study_mate.Exec.Reading.{IfOk}
use study_mate.Scan.Model.{ocr_complete}
use study_mate.Scan.Worker.Model.{database, Error, Work, Job, Env, Store}
use study_mate.Scan.Worker.Repository.{
  job_of, get_job, is_claimable, claimed, picked_jobs, has_id, claim_pending_jobs,
  update_job_status, delete_object, with_job, clear_job_pipeline_text, update_job_chapter_summary,
}
use study_mate.Scan.Worker.Pages.{delete_page_objects}
use study_mate.Scan.Worker.Settle.{
  finish_job, clear_if, save_summary, quiz_ready_notice, final_job_status,
}
use study_mate.Scan.Worker.Process.{process_job}

-- what finish_job does before it changes the job's status
unfoldable pub cleanup : Env → Job → List String → Bool → String → Work Unit
cleanup env job refs clears summary = do
  delete_page_objects refs
  cleared ← clear_if env job.id clears
  saved ← save_summary env job.id summary
  pure tt

-- what comes after an action that ends at `u`
carried :
    {A : Type 0} (f g : A → Work Unit) (last : Work Unit) (u : World Store) (r : Result Error A)
    (w : World Store)
    → ((a : A) (v : World Store) → f a v ≡ (ok tt, u) → g a v ≡ last u)
    → and_then f (r, w) ≡ (ok tt, u)
    → and_then g (r, w) ≡ last u
carried f g last u (ok a) w k h = k a w h
carried f g last u (err e) w k h = ground (arith, h)

-- rows with the job's number that are all at ocr_complete
abbrev pub IsLeft : ℕ → List Job → Type 0
IsLeft id js = All (λ j. (j.id == id) ≡ true → j.status ≡ ocr_complete) js

-- some row has the number, and all that have it are at ocr_complete
abbrev pub IsThere : ℕ → Store → Type 0
IsThere id s = (any (λ (j : Job). j.id == id) s.jobs ≡ true) × IsLeft id s.jobs

update-IsLeft :
    (id : ℕ) (f : Job → Job) (js : List Job)
    → ((j : Job) → (f j).id ≡ j.id)
    → ((j : Job) → (f j).status ≡ j.status)
    → IsLeft id js
    → IsLeft id (update (λ j. j.id == id) f js)
update-IsLeft id f [] same kept h = tt
update-IsLeft id f (j ∷ js) same kept h =
    (λ e. ground (arith, e, h.0, same j, kept j), update-IsLeft id f js same kept h.1)

with_job-IsThere :
    (id : ℕ) (f : Job → Job) (s : Store)
    → ((j : Job) → (f j).id ≡ j.id)
    → ((j : Job) → (f j).status ≡ j.status)
    → IsThere id s
    → IsThere id (with_job id f s)
with_job-IsThere id f s same kept h = (
  any-update (λ j. j.id == id) (λ j. j.id == id) f s.jobs (λ j. ap (λ x. x == id) (same j)) ∙ h.0,
  update-IsLeft id f s.jobs same kept h.1,
)

delete_page_objects-Keeps :
    (id : ℕ) (refs : List String) → Keeps (IsThere id) (delete_page_objects refs)
unfolding delete_page_objects delete_object
delete_page_objects-Keeps id [] = Keeps-pure tt
delete_page_objects-Keeps id (ref ∷ rest) =
    Keeps-bind _ _
      (Keeps-if (str_eq ref "") (Keeps-pure (ok tt)) (Keeps-attempt _ (Keeps-call _ _ λ s h. h)))
      λ _. delete_page_objects-Keeps id rest

clear_if-Keeps : (env : Env) (id : ℕ) (clears : Bool) → Keeps (IsThere id) (clear_if env id clears)
unfolding clear_job_pipeline_text
clear_if-Keeps env id false = Keeps-pure (ok tt)
clear_if-Keeps env id true =
    Keeps-attempt _ (Keeps-call _ _ λ s h. with_job-IsThere id _ s (λ j. refl) (λ j. refl) h)

cleanup-Keeps :
    (env : Env) (job : Job) (refs : List String) (clears : Bool) (summary : String)
    → Keeps (IsThere job.id) (cleanup env job refs clears summary)
unfolding cleanup update_job_chapter_summary
cleanup-Keeps env job refs clears summary =
    Keeps-bind _ _ (delete_page_objects-Keeps job.id refs) λ _.
      Keeps-bind _ _ (clear_if-Keeps env job.id clears) λ _.
        Keeps-bind _ _
          (Keeps-if (str_eq summary "") (Keeps-pure (ok tt)) (
            Keeps-attempt _
              (Keeps-call _ _ λ s h. with_job-IsThere job.id _ s (λ j. refl) (λ j. refl) h)))
          λ _. Keeps-pure tt

-- the row that is found
found_row :
    (id : ℕ) (js : List Job)
    → any (λ j. j.id == id) js ≡ true
    → IsLeft id js
    → (row : Job) × (find (λ j. j.id == id) js ≡ some row) × (row.status ≡ ocr_complete)
found_row id [] h left = absurd (ground (arith, h))
found_row id (j ∷ js) h left = elim (Bool-cases (j.id == id)) [
  | inl same ↦ (j, ground (arith, same), left.0 same)
  | inr other ↦
      let (row, found, status) = found_row id js (ground (arith, h, other)) left.1 in
      (row, ground (arith, other, found), status)
]

last_update_fails :
    (env : Env) (job : Job) (refs : List String) (clears extract : Bool) (made : ℕ × String)
    (w : World Store) (left : Store) (fs : List Bool)
    → cleanup env job refs clears made.1 w ≡ (ok tt, record { store = left; faults = true ∷ fs })
    → finish_job env job refs clears extract made w
      ≡ (err database, record { store = left; faults = fs })
unfolding cleanup finish_job update_job_status call
last_update_fails env job refs clears extract (quiz_id, summary) w left fs e =
    let next = update_job_status env.now job.id (final_job_status extract) 100 none in
    let last = next >> quiz_ready_notice job.user_id job.id quiz_id in
    let end : World Store = record { store = left; faults = true ∷ fs } in
    let gone = delete_page_objects refs w in
    carried _ _ last end gone.0 gone.1
      (λ _ u.
        let cleared = clear_if env job.id clears u in
        carried _ _ last end cleared.0 cleared.1 λ _ v.
          let saved = save_summary env job.id summary v in
          carried _ _ last end saved.0 saved.1 λ _ x h. ap (λ r. last r.1) h)
      e

ignored :
    (env : Env) (id : ℕ) (job : Job) (s : Store) (fs : List Bool)
    → job_of s id ≡ some job
    → job.status ≡ ocr_complete
    → (process_job env id (record { store = s; faults = fs })).1.store ≡ s
unfolding process_job get_job call
ignored env id job s fs found status = ground (arith, found, status)

not_claimable :
    (now id : ℕ) (js : List Job)
    → IsLeft id js
    → any (λ j. j.id == id) (select (is_claimable now) js) ≡ false
not_claimable now id [] h = refl
not_claimable now id (j ∷ js) h = elim (Bool-cases (j.id == id)) [
  | inl same ↦ ground (arith, h.0 same, not_claimable now id js h.1)
  | inr other ↦ ground (arith, other, not_claimable now id js h.1)
]

not_picked :
    (now limit id : ℕ) (s : Store) → IsLeft id s.jobs → has_id (picked_jobs now limit s) id ≡ false
not_picked now limit id s h =
    any-take (λ j. j.id == id) _ _
      (any-sort_by (λ j. j.id == id) (λ j. j.created_at) (select (is_claimable now) s.jobs)
        ∙ not_claimable now id s.jobs h)

has_id-claimed : (now id : ℕ) (js : List Job) → has_id (map (claimed now) js) id ≡ has_id js id
has_id-claimed now id [] = refl
has_id-claimed now id (j ∷ js) = ground (arith, has_id-claimed now id js)

not_moved :
    (now limit id : ℕ) (s : Store) (row : Job)
    → IsLeft id s.jobs
    → job_of s id ≡ some row
    → find
        (λ j. j.id == id)
        (update (λ j. has_id (picked_jobs now limit s) j.id) (claimed now) s.jobs)
      ≡ some row
not_moved now limit id s row h found =
    let own = (==_iff row.id id).0 (find-holds (λ j. j.id == id) s.jobs row found) in
    find-update (λ j. j.id == id) (λ j. has_id (picked_jobs now limit s) j.id) (claimed now) s.jobs
      row (λ j. refl) found
    ∙ rw (own, not_picked now limit id s h) refl

never_claimed :
    (now limit id : ℕ) (s : Store) (fs : List Bool) (row : Job)
    → IsLeft id s.jobs
    → job_of s id ≡ some row
    → let r = claim_pending_jobs now limit (record { store = s; faults = fs }) in
      IfOk (λ js. has_id js id ≡ false) r.0 × (job_of r.1.store id ≡ some row)
unfolding claim_pending_jobs call
never_claimed now limit id s [] row h found = (
  has_id-claimed now id (picked_jobs now limit s) ∙ not_picked now limit id s h,
  not_moved now limit id s row h found,
)
never_claimed now limit id s (true ∷ fs) row h found = (tt, found)
never_claimed now limit id s (false ∷ fs) row h found = (
  has_id-claimed now id (picked_jobs now limit s) ∙ not_picked now limit id s h,
  not_moved now limit id s row h found,
)

-- When the change of status at the end of a job fails, whatever was cleaned up before it, the job is left
-- at ocr_complete. From then on no claim hands it to a worker or changes its row, and ProcessJob changes
-- nothing for it, whatever calls fail.
pub stuck_job :
    (env : Env) (job : Job) (refs : List String) (clears extract : Bool) (made : ℕ × String)
    (w : World Store) (left : Store) (fs : List Bool)
    → IsThere job.id w.store
    → cleanup env job refs clears made.1 w ≡ (ok tt, record { store = left; faults = true ∷ fs })
    → (finish_job env job refs clears extract made w
        ≡ (err database, record { store = left; faults = fs }))
      × (row : Job) × (job_of left job.id ≡ some row)
      × (row.status ≡ ocr_complete)
      × ((later : Env) (fs : List Bool)
          → (process_job later job.id (record { store = left; faults = fs })).1.store ≡ left)
      × ((now limit : ℕ) (fs : List Bool)
          → let r = claim_pending_jobs now limit (record { store = left; faults = fs }) in
            IfOk (λ js. has_id js job.id ≡ false) r.0 × (job_of r.1.store job.id ≡ some row))
stuck_job env job refs clears extract made w left fs there e =
    let kept =
      subst (λ x. IsThere job.id x.1.store) e
        ((cleanup-Keeps env job refs clears made.1).at w there) in
    let (row, found, status) = found_row job.id left.jobs kept.0 kept.1 in
    (
      last_update_fails env job refs clears extract made w left fs e,
      row,
      found,
      status,
      λ later fs. ignored later job.id row left fs found status,
      λ now limit fs. never_claimed now limit job.id left fs row kept.1 found,
    )
