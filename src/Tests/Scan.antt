-- ===== src/Tests/Scan.antt =====
-- A job of one page whose two chunks arrived in the other order.
use study_mate.Prelude.{
  to_lower, find, false, is_blank, ℕ, ◌≡◌, refl, some, none, List, [], ◌∷◌, ◌++◌, arith, not,
  select, update, ◌==◌,
}
use study_mate.Prelude.Integer.{pos}
use study_mate.Exec.{ok, IsOk, IsError, World}
use study_mate.Scan.Model.{
  uploading, UploadStatus, in_transfer, uploaded, PageChunkMetadata, chunk_object_key, final_key,
  has_chunk_prefix, ScanJob, ScanPage, Store, Headers,
}
use study_mate.Scan.Chunks.{
  receive_chunk, with_total, decode_chunk_metadata, ChunkRequest, parse_chunk_headers,
  chunk_already_received, handle_chunk_upload,
}
use study_mate.Scan.Complete.{
  UploadCompleteRequest, compose_page, image_extension, sort_ints, has_all,
}
use study_mate.Scan.Interleaved.{IsAcceptable, lost_receipt}
use study_mate.Scan.Guarded.{uploaded_page_kept}
use study_mate.Scan.Composed.{compose_page_lem}

abbrev meta : PageChunkMetadata
meta = record { total_chunks = 2; received = 1 ∷ 0 ∷ []; checksums = [] }

abbrev page : UploadStatus → ScanPage
page st = record {
  id = 3;
  scan_job_id = 9;
  page_no = 1;
  upload_status = st;
  chunk_metadata = some meta;
  temp_storage_key = none;
}

abbrev job : ScanJob
job = record { id = 9; user_id = 42; status = uploading; progress = 0 }

abbrev head : List ℕ
head = 0xFF ∷ 0xD8 ∷ 0xFF ∷ 1 ∷ 2 ∷ 3 ∷ []

abbrev tail : List ℕ
tail = 4 ∷ 5 ∷ 6 ∷ 7 ∷ 8 ∷ 9 ∷ []

abbrev desk : UploadStatus → Store
desk st = record {
  jobs = job ∷ [];
  pages = page st ∷ [];
  objects = (chunk_object_key 9 1 1, tail) ∷ (chunk_object_key 9 1 0, head) ∷ [];
  next_id = 50;
}

abbrev calm : Store → World Store
calm s = record { store = s; faults = [] }

abbrev headers : Headers
headers = record {
  job_id = some (pos 9);
  page_number = some (pos 1);
  chunk_index = some (pos 1);
  total_chunks = some (pos 2);
  checksum = " ab ";
}

abbrev chunk : ChunkRequest
chunk = record { job_id = 9; page_no = 1; chunk_index = 1; total_chunks = 2; checksum = "ab" }

headers-chunk : parse_chunk_headers headers ≡ ok chunk
unfolding parse_chunk_headers is_blank
headers-chunk = refl

abbrev finished : UploadCompleteRequest
finished = record { job_id = pos 9; page_number = pos 1; total_chunks = pos 2 }

uploaded_page_kept_example :
    let w = calm (desk uploaded) in
    IsError (handle_chunk_upload (λ b. "ab") 42 headers (some tail) w).0
    × ((handle_chunk_upload (λ b. "ab") 42 headers (some tail) w).1.store ≡ w.store)
uploaded_page_kept_example =
    uploaded_page_kept (λ b. "ab") 42 headers (some tail) chunk (page uploaded)
      (calm (desk uploaded)) headers-chunk refl refl

compose_page_lem_example :
    let s = desk in_transfer in
    let r = compose_page "u" 2 job (page in_transfer) (calm s) in
    let key = final_key 9 1 "u" ".jpg" in
    IsOk r.0
    × (r.1.store.objects
        ≡ (key, head ++ tail ++ []) ∷ select (λ o. not (has_chunk_prefix 9 1 o.0)) s.objects)
    × (r.1.store.pages
        ≡ update
            (λ q. q.id == 3)
            (λ q. record q {
              temp_storage_key = some key;
              upload_status = uploaded;
              chunk_metadata = none;
            })
            s.pages)
unfolding with_total decode_chunk_metadata has_all sort_ints image_extension
compose_page_lem_example =
    compose_page_lem "u" ".jpg" 2 job (page in_transfer) (desk in_transfer) (head ∷ tail ∷ []) refl
      refl refl refl (refl, (refl, tt)) refl refl

-- both chunks are sent before either receipt is written
abbrev untouched : ScanPage
untouched = record (page in_transfer) { chunk_metadata = none }

abbrev other_chunk : ChunkRequest
other_chunk = record chunk { chunk_index = 0 }

abbrev empty_desk : Store
empty_desk = record (desk in_transfer) { pages = untouched ∷ []; objects = [] }

chunk-IsAcceptable : IsAcceptable (λ b. "ab") chunk tail untouched
unfolding with_total decode_chunk_metadata chunk_already_received to_lower
chunk-IsAcceptable = record {
  same_total = refl;
  fresh = refl;
  small = refl;
  fits = refl;
  digest = refl;
}

other_chunk-IsAcceptable : IsAcceptable (λ b. "ab") other_chunk head untouched
unfolding with_total decode_chunk_metadata chunk_already_received to_lower
other_chunk-IsAcceptable = record {
  same_total = refl;
  fresh = refl;
  small = refl;
  fits = refl;
  digest = refl;
}

lost_receipt_example :
    let first = receive_chunk (λ b. "ab") chunk (some tail) untouched (calm empty_desk) in
    let second = receive_chunk (λ b. "ab") other_chunk (some head) untouched first.1 in
    IsOk first.0
    × IsOk second.0
    × (t : ScanPage) × (find (λ x. x.id == 3) second.1.store.pages ≡ some t)
    × (chunk_already_received (decode_chunk_metadata t.chunk_metadata) 1 ≡ false)
lost_receipt_example =
    lost_receipt (λ b. "ab") untouched chunk other_chunk tail head empty_desk refl (ground arith)
      chunk-IsAcceptable other_chunk-IsAcceptable
