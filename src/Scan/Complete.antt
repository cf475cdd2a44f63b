-- ===== src/Scan/Complete.antt =====
-- HandleUploadComplete (backend/internal/scan/upload_chunked.go).
use study_mate.Prelude.{
  ℕ, zero, suc, String, Bool, true, false, ◌&&◌, Option, none, some, List, [], ◌∷◌, ◌++◌, ◌==◌, ltb,
  leb, length, get_elem?, if◌then◌else◌,
}
use study_mate.Prelude.Integer.{ℤ, is_positive, to_nat}
use study_mate.Exec.{Result, ok, err, pure, lift, attempt, guard, ◌>>=◌, ◌>>◌}
use study_mate.Scan.Model.{
  JobStatus, pending, is_uploading, is_uploaded, Key, final_key, ScanJob, ScanPage, Error,
  bad_request, Scan, max_page_upload_size,
}
use study_mate.Scan.Pages.{
  get_job_for_user, get_page, all_pages_uploaded, set_pending, get_chunk, put_object, delete_chunks,
  mark_page_uploaded,
}
use study_mate.Scan.Chunks.{decode_chunk_metadata, with_total}

pub record UploadCompleteRequest : Type 0 where
  pub job_id : ℤ
  pub page_number : ℤ
  pub total_chunks : ℤ

pub record UploadCompleteResponse : Type 0 where
  pub job_id : ℕ
  pub status : JobStatus

-- sort.Ints
unfoldable pub insert_int : ℕ → List ℕ → List ℕ
insert_int n [] = n ∷ []
insert_int n (m ∷ rest) = if leb n m then n ∷ m ∷ rest else m ∷ insert_int n rest

unfoldable pub sort_ints : List ℕ → List ℕ
unfolding insert_int
sort_ints [] = []
sort_ints (n ∷ rest) = insert_int n (sort_ints rest)

-- the loop that looks for a missing chunk: the numbers from `i`, `n` of them
unfoldable pub has_all : ℕ → ℕ → List ℕ → Bool
has_all i zero xs = true
has_all i (suc n) [] = false
has_all i (suc n) (x ∷ xs) = x == i && has_all (suc i) n xs

-- the loop that appends the stored chunks
unfoldable pub compose_chunks : ℕ → ℕ → ℕ → ℕ → Scan (List ℕ)
compose_chunks job page i zero = pure []
compose_chunks job page i (suc n) = do
  part ← get_chunk job page i
  rest ← compose_chunks job page (suc i) n
  pure (part ++ rest)

abbrev byte_is : List ℕ → ℕ → ℕ → Bool
byte_is bytes i b = is_byte (get_elem? bytes i) b
  where
    is_byte : Option ℕ → ℕ → Bool
    is_byte none b = false
    is_byte (some a) b = a == b

-- detectImageContentType, of which only the extension is used
unfoldable pub image_extension : List ℕ → Result Error String
image_extension bytes =
    let b = byte_is bytes in
    if ltb (length bytes) 12
    then err bad_request
    else if b 0 0xFF && b 1 0xD8 && b 2 0xFF
    then ok ".jpg"
    else if b 0 0x89 && b 1 0x50 && b 2 0x4E && b 3 0x47
    then ok ".png"
    else if b 0 82 && b 1 73 && b 2 70 && b 3 70 && b 8 87 && b 9 69 && b 10 66 && b 11 80
    then ok ".webp"
    else err bad_request

-- the status after an attempt to set it
abbrev status_after : JobStatus → Result Error Unit → JobStatus
status_after old (ok u) = pending
status_after old (err e) = old

abbrev is_ready : Result Error Bool → Bool
is_ready (ok b) = b
is_ready (err e) = false

abbrev has_key : Option Key → Bool
has_key none = false
has_key (some k) = true

-- the branch for a page that is composed already
unfoldable pub complete_again : ScanJob → Scan UploadCompleteResponse
complete_again job = do
  ready ← attempt (all_pages_uploaded job.id)
  if is_ready ready && is_uploading job.status
      then (do
        set ← attempt (set_pending job.id)
        pure (record { job_id = job.id; status = status_after job.status set }))
      else pure (record { job_id = job.id; status = job.status })

-- the end of the handler: a job whose pages are all uploaded is pending
unfoldable pub finish_page : ScanJob → Scan UploadCompleteResponse
finish_page job = do
  ready ← attempt (all_pages_uploaded job.id)
  if is_ready ready
      then (do set_pending job.id; pure (record { job_id = job.id; status = pending }))
      else pure (record { job_id = job.id; status = job.status })

-- the composition of a page that is not uploaded yet
unfoldable pub compose_page : String → ℕ → ScanJob → ScanPage → Scan UploadCompleteResponse
unfolding sort_ints has_all compose_chunks image_extension finish_page
compose_page uuid total job p = do
  let meta = with_total total (decode_chunk_metadata p.chunk_metadata)
  guard (meta.total_chunks == total) bad_request
  guard (leb meta.total_chunks (length meta.received)) bad_request
  guard (has_all 0 meta.total_chunks (sort_ints meta.received)) bad_request
  bytes ← compose_chunks job.id p.page_no 0 meta.total_chunks
  guard (leb (length bytes) max_page_upload_size) bad_request
  extension ← lift (image_extension bytes)
  let key = final_key job.id p.page_no uuid extension
  put_object (λ k. false) key bytes
  cleaned ← attempt (delete_chunks job.id p.page_no)
  mark_page_uploaded p.id key
  finish_page job

-- HandleUploadComplete; `uuid` is the random part of a new key, unlike those before it
unfoldable pub handle_upload_complete :
    String → ℕ → UploadCompleteRequest → Scan UploadCompleteResponse
unfolding complete_again compose_page
handle_upload_complete uuid user_id r = do
  guard (is_positive r.job_id && is_positive r.page_number && is_positive r.total_chunks)
      bad_request
  job ← get_job_for_user (to_nat r.job_id) user_id
  p ← get_page (to_nat r.job_id) (to_nat r.page_number)
  if is_uploaded p.upload_status && has_key p.temp_storage_key
      then complete_again job
      else compose_page uuid (to_nat r.total_chunks) job p
