-- ===== src/Scan/Worker/Pages.antt =====
-- The pages of a job: their text or their images, and how a job fails
-- (backend/internal/scan/worker.go).
use Prim.Native.String.{◌++◌ as join}
use study_mate.Prelude.{
  ℕ, suc, String, Bool, true, false, not, ◌||◌, ◌&&◌, Option, none, some, List, [], ◌∷◌, ◌++◌, ◌==◌,
  leb, ltb, str_eq, to_lower, if◌then◌else◌,
}
use study_mate.Exec.{Result, ok, err, call, pure, raise, attempt, guard, ◌>>=◌, ◌>>◌}
use study_mate.Scan.Model.{failed}
use study_mate.Ai.Detect.{PageType, chapter_text, detect_page_type}
use study_mate.Scan.Worker.Model.{
  Error, storage, ocr_failed, low_confidence, Job, Page, Env, Extracted, Work,
}
use study_mate.Scan.Worker.Repository.{
  update_job_status, list_pages, update_page_processed, get_object, delete_object,
}
mod Words
unfoldable pub use Words.{normalize_text}

abbrev pub text_or_empty : Option String → String
text_or_empty none = ""
text_or_empty (some t) = t

-- pageObjectRef
unfoldable pub page_object_ref : Page → String
page_object_ref p =
    let key = text_or_empty p.temp_storage_key in
    if str_eq key "" then text_or_empty p.image_url else key

-- deletePageObjects; errors are dropped
unfoldable pub delete_page_objects : List String → Work Unit
delete_page_objects [] = pure tt
delete_page_objects (ref ∷ rest) = do
  gone ← (if str_eq ref "" then pure (ok tt) else attempt (delete_object ref))
  delete_page_objects rest

abbrev pub refs_of : List Page → List String
refs_of [] = []
refs_of (p ∷ ps) = page_object_ref p ∷ refs_of ps

unfoldable pub delete_listed : Result Error (List Page) → Work Unit
unfolding delete_page_objects page_object_ref
delete_listed (err e) = pure tt
delete_listed (ok ps) = delete_page_objects (refs_of ps)

-- failJob
unfoldable pub fail_job : {A : Type 0} → ℕ → ℕ → Error → Work A
unfolding delete_listed
fail_job now id e = do
  pages ← attempt (list_pages id)
  delete_listed pages
  marked ← attempt (update_job_status now id failed 0 (some e))
  raise e

-- computeContentHash; %v of the two ids, which are pointers, is a parameter
unfoldable pub compute_content_hash : Env → Option ℕ → Option ℕ → ℕ → String → String
unfolding normalize_text
compute_content_hash env book_id chapter_id page_no text = env.digest (
    join (env.show_pointer book_id) (
      join ":" (
        join (env.show_pointer chapter_id)
          (join ":" (join (env.show_number page_no) (join ":" (normalize_text env.lower text)))))))

unfoldable pub extract_once : Env → Job → ℕ → String → Work Extracted
extract_once env job n url =
    call ocr_failed λ s. (ok (env.extract (text_or_empty job.chapter_title) n url), s)

unfoldable pub again : Env → Job → String → Result Error Extracted → Work Extracted
unfolding extract_once
again env job url (ok r) = pure r
again env job url (err e) = extract_once env job 1 url

-- processPage: the text of a page, from at most two attempts of the OCR
unfoldable pub process_page : Env → Job → Page → Work (String × String)
unfolding again compute_content_hash
process_page env job page = do
  let ref = page_object_ref page
  url ← call storage λ s. (ok (env.presign ref), s)
  first ← attempt (extract_once env job 0 url)
  result ← again env job url first
  guard (env.min_confidence == 0 || leb env.min_confidence result.confidence) low_confidence
  update_page_processed page.id
      (compute_content_hash env job.book_id job.chapter_id page.page_no result.raw_text)
      result.confidence (detect_page_type env.lower result.raw_text)
  pure (result.raw_text, ref)

abbrev pub add_page :
    Result Error (String × String) → List String × List String → List String × List String
add_page (err e) (texts, refs) = (texts, refs)
add_page (ok (text, ref)) (texts, refs) = (text ∷ texts, ref ∷ refs)

-- the loop of ProcessJob over the pages: a page that fails is left out
unfoldable pub process_pages : Env → Job → List Page → Work (List String × List String)
process_pages env job [] = pure ([], [])
process_pages env job (p ∷ ps) = do
  one ← attempt (process_page env job p)
  rest ← process_pages env job ps
  pure (add_page one rest)

-- strings.Join
unfoldable pub join_lines : List String → String
join_lines [] = ""
join_lines (t ∷ []) = t
join_lines (t ∷ u ∷ rest) = let others = join_lines (u ∷ rest) in join t (join "\n" others)

-- strings.HasSuffix
has_suffix : String → String → Bool
has_suffix String.[] t = str_eq t ""
has_suffix (String.◌∷◌ c s) t = str_eq (String.◌∷◌ c s) t || has_suffix s t

-- MIMEFromObjectRef
unfoldable pub mime_from_object_ref : Env → String → String
unfolding has_suffix
mime_from_object_ref env ref =
    let l = env.lower ref in
    if has_suffix l ".png"
    then "image/png"
    else if has_suffix l ".webp"
    then "image/webp"
    else "image/jpeg"

pub record Image : Type 0 where
  pub bytes : List ℕ
  pub mime : String
  pub ref : String

unfoldable pub loaded :
    Env → Job → Page → String → Result Error (List ℕ) → List Image → Work (List Image)
unfolding mime_from_object_ref compute_content_hash
loaded env job p ref (err e) before = pure before
loaded env job p ref (ok bytes) before = do
  marked ← attempt (
      update_page_processed p.id
        (compute_content_hash env job.book_id job.chapter_id p.page_no "vision") 99 chapter_text)
  pure (before ++ (record { bytes = bytes; mime = mime_from_object_ref env ref; ref = ref } ∷ []))

-- one page of processJobVision's loop: a page without a stored image is left out
unfoldable pub load_page : Env → Job → Page → List Image → Work (List Image)
unfolding loaded page_object_ref
load_page env job p before =
    let ref = page_object_ref p in
    if str_eq ref ""
    then pure before
    else (do bytes ← attempt (get_object ref); loaded env job p ref bytes before)

-- the loop of processJobVision, in the order of the pages
unfoldable pub load_pages : Env → Job → List Page → List Image → Work (List Image)
unfolding load_page
load_pages env job [] before = pure before
load_pages env job (p ∷ ps) before = do
  so_far ← load_page env job p before
  load_pages env job ps so_far
