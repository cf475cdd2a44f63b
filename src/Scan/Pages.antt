-- ===== src/Scan/Pages.antt =====
-- The queries of backend/internal/scan/repository.go and the calls of the object storage that an
-- upload makes.
use study_mate.Prelude.{
  ℕ, suc, Bool, not, ◌&&◌, Option, none, some, List, ◌∷◌, ◌==◌, length, find, any, select, update,
  if◌then◌else◌,
}
use study_mate.Exec.{Result, ok, err, pure, call, attempt, ◌>>=◌}
use study_mate.Scan.Model.{
  pending, not_started, in_transfer, uploaded, is_uploaded, PageChunkMetadata, Key, same_chunk,
  has_chunk_prefix, ScanJob, ScanPage, Store, Error, not_found, internal, bad_request, Scan,
}

abbrev pub or_missing : {A : Type 0} → Error → Option A → Result Error A
or_missing e none = err e
or_missing e (some a) = ok a

abbrev pub job_of : Store → ℕ → ℕ → Option ScanJob
job_of s job_id user_id = find (λ j. j.id == job_id && j.user_id == user_id) s.jobs

-- GetJobForUser; its caller answers every error with 404
unfoldable pub get_job_for_user : ℕ → ℕ → Scan ScanJob
get_job_for_user job_id user_id =
    call not_found λ s. (or_missing not_found (job_of s job_id user_id), s)

abbrev pub page_of : Store → ℕ → ℕ → Option ScanPage
page_of s job_id page_no = find (λ p. p.scan_job_id == job_id && p.page_no == page_no) s.pages

-- GetPageByJobAndPageNo
unfoldable pub get_page : ℕ → ℕ → Scan ScanPage
get_page job_id page_no = call not_found λ s. (or_missing not_found (page_of s job_id page_no), s)

abbrev pub new_page : ℕ → ℕ → ℕ → ScanPage
new_page id job_id page_no = record {
  id = id;
  scan_job_id = job_id;
  page_no = page_no;
  upload_status = not_started;
  chunk_metadata = none;
  temp_storage_key = none;
}

-- CreatePage; UNIQUE (scan_job_id, page_no) refuses a second row
unfoldable pub create_page : ℕ → ℕ → Scan ScanPage
create_page job_id page_no = call internal λ s.
    if any (λ p. p.scan_job_id == job_id && p.page_no == page_no) s.pages
    then (err internal, s)
    else (
      ok (new_page s.next_id job_id page_no),
      record s { pages = new_page s.next_id job_id page_no ∷ s.pages; next_id = suc s.next_id },
    )

page_or_new : ℕ → ℕ → Result Error ScanPage → Scan ScanPage
page_or_new job_id page_no (ok p) = pure p
page_or_new job_id page_no (err e) = create_page job_id page_no

-- EnsurePage: any error of the lookup leads to CreatePage
unfoldable pub ensure_page : ℕ → ℕ → Scan ScanPage
unfolding get_page page_or_new create_page
ensure_page job_id page_no = do
  found ← attempt (get_page job_id page_no)
  page_or_new job_id page_no found

-- UpdatePageChunkMetadata
unfoldable pub update_page_chunk_metadata : ℕ → PageChunkMetadata → Scan Unit
update_page_chunk_metadata page_id meta = call internal λ s. (
  ok tt,
  record s {
    pages =
        update (λ p. p.id == page_id)
          (λ p. record p { chunk_metadata = some meta; upload_status = in_transfer }) s.pages;
  },
)

-- MarkPageUploaded
unfoldable pub mark_page_uploaded : ℕ → Key → Scan Unit
mark_page_uploaded page_id key = call internal λ s. (
  ok tt,
  record s {
    pages =
        update (λ p. p.id == page_id)
          (λ p. record p {
            temp_storage_key = some key;
            upload_status = uploaded;
            chunk_metadata = none;
          })
          s.pages;
  },
)

abbrev pub job_pages : ℕ → Store → List ScanPage
job_pages job_id s = select (λ p. p.scan_job_id == job_id) s.pages

-- AllPagesUploaded: two counts
unfoldable pub all_pages_uploaded : ℕ → Scan Bool
all_pages_uploaded job_id = do
  waiting ←
      call internal
        λ s. (ok (length (select (λ p. not (is_uploaded p.upload_status)) (job_pages job_id s))), s)
  total ← call internal λ s. (ok (length (job_pages job_id s)), s)
  pure (not (total == 0) && waiting == 0)

-- UpdateJobStatus with the status pending and progress 0
unfoldable pub set_pending : ℕ → Scan Unit
set_pending job_id = call internal λ s. (
  ok tt,
  record s {
    jobs = update (λ j. j.id == job_id) (λ j. record j { status = pending; progress = 0 }) s.jobs;
  },
)

-- PutObject and PutObjectStream: the object replaces one of the same key
unfoldable pub put_object : (Key → Bool) → Key → List ℕ → Scan Unit
put_object same key bytes =
    call internal
      λ s. (ok tt, record s { objects = (key, bytes) ∷ select (λ o. not (same o.0)) s.objects })

abbrev pub bytes_of : Option (Key × List ℕ) → Option (List ℕ)
bytes_of none = none
bytes_of (some (k, b)) = some b

abbrev pub chunk_of : Store → ℕ → ℕ → ℕ → Option (List ℕ)
chunk_of s job page i = bytes_of (find (λ o. same_chunk job page i o.0) s.objects)

-- GetObject of a chunk; its caller answers every error with 400
unfoldable pub get_chunk : ℕ → ℕ → ℕ → Scan (List ℕ)
get_chunk job page i = call bad_request λ s. (or_missing bad_request (chunk_of s job page i), s)

-- DeletePrefix of the chunks of a page
unfoldable pub delete_chunks : ℕ → ℕ → Scan Unit
delete_chunks job page =
    call internal λ s.
      (ok tt, record s { objects = select (λ o. not (has_chunk_prefix job page o.0)) s.objects })
