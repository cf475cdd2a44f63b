-- ===== src/Scan/Chunks.antt =====
-- HandleChunkUpload (backend/internal/scan/upload_chunked.go). The size limit of PutObject is one that
-- its callers check first.
use study_mate.Prelude.{
  ℕ, ◌*◌, String, Bool, not, ◌&&◌, Option, none, some, List, [], ◌∷◌, ◌++◌, ◌==◌, ltb, leb, length,
  any, str_eq, to_lower, is_blank, trim_space, if◌then◌else◌,
}
use study_mate.Prelude.Integer.{ℤ, pos, negsuc}
use study_mate.Exec.{Result, ok, err, pure, raise, lift, guard, ◌>>=◌, ◌>>◌}
use study_mate.Scan.Model.{
  is_uploaded, PageChunkMetadata, chunk_object_key, same_chunk, ScanPage, Error, bad_request,
  already_uploaded, already_received, Scan, chunk_size_bytes, max_page_upload_size,
  max_chunks_per_page, Headers,
}
use study_mate.Scan.Pages.{
  or_missing, get_job_for_user, ensure_page, update_page_chunk_metadata, put_object,
}

-- the numbers of a chunk, and the checksum that the client sent
pub record ChunkRequest : Type 0 where
  pub job_id : ℕ
  pub page_no : ℕ
  pub chunk_index : ℕ
  pub total_chunks : ℕ
  pub checksum : String

abbrev positive : Option ℤ → Result Error ℕ
positive none = err bad_request
positive (some (negsuc n)) = err bad_request
positive (some (pos n)) = if n == 0 then err bad_request else ok n

-- chunkIndex, against totalChunks
abbrev index_below : ℕ → Option ℤ → Result Error ℕ
index_below total none = err bad_request
index_below total (some (negsuc n)) = err bad_request
index_below total (some (pos n)) = if ltb n total then ok n else err bad_request

abbrev pub then_ok : {A B : Type 0} → Result Error A → (A → Result Error B) → Result Error B
then_ok (ok a) f = f a
then_ok (err e) f = err e

-- parseChunkHeaders and the two range checks after it; all of their errors are 400
unfoldable pub parse_chunk_headers : Headers → Result Error ChunkRequest
parse_chunk_headers h = then_ok (positive h.job_id) λ job. then_ok (positive h.page_number) λ page.
    then_ok (positive h.total_chunks) λ total. then_ok (index_below total h.chunk_index) λ index.
      if is_blank h.checksum
      then err bad_request
      else if ltb max_chunks_per_page total
      then err bad_request
      else ok (record {
        job_id = job;
        page_no = page;
        chunk_index = index;
        total_chunks = total;
        checksum = trim_space h.checksum;
      })

-- decodeChunkMetadata
unfoldable pub decode_chunk_metadata : Option PageChunkMetadata → PageChunkMetadata
decode_chunk_metadata none = record { total_chunks = 0; received = []; checksums = [] }
decode_chunk_metadata (some meta) = meta

-- the first request that names a total sets it
unfoldable pub with_total : ℕ → PageChunkMetadata → PageChunkMetadata
with_total total meta =
    if meta.total_chunks == 0 then record meta { total_chunks = total } else meta

-- chunkAlreadyReceived
unfoldable pub chunk_already_received : PageChunkMetadata → ℕ → Bool
chunk_already_received meta index = any (λ i. i == index) meta.received

-- recordChunkReceipt
unfoldable pub record_chunk_receipt : PageChunkMetadata → ℕ → String → PageChunkMetadata
unfolding chunk_already_received
record_chunk_receipt meta index checksum =
    if chunk_already_received meta index then meta else record meta {
      received = meta.received ++ index ∷ [];
      checksums = (index, checksum) ∷ meta.checksums;
    }

pub record Receipt : Type 0 where
  pub chunk_index : ℕ
  pub received : ℕ
  pub total_chunks : ℕ

-- strings.EqualFold against a digest, which has only digits and the letters a to f
abbrev pub fold_eq : String → String → Bool
fold_eq s t = str_eq (to_lower s) (to_lower t)

-- the part of the handler after the page is known
unfoldable pub receive_chunk :
    (List ℕ → String) → ChunkRequest → Option (List ℕ) → ScanPage → Scan Receipt
unfolding decode_chunk_metadata with_total record_chunk_receipt
receive_chunk md5_hex r body p = do
  let meta = with_total r.total_chunks (decode_chunk_metadata p.chunk_metadata)
  guard (meta.total_chunks == r.total_chunks) bad_request
  guard (not (chunk_already_received meta r.chunk_index)) already_received
  bytes ← lift (or_missing bad_request body)
  guard (leb (length bytes) chunk_size_bytes) bad_request
  guard (not (r.chunk_index == 0 && ltb max_page_upload_size (r.total_chunks * chunk_size_bytes)))
      bad_request
  guard (fold_eq (md5_hex bytes) r.checksum) bad_request
  put_object (same_chunk r.job_id r.page_no r.chunk_index)
      (chunk_object_key r.job_id r.page_no r.chunk_index) bytes
  let next = record_chunk_receipt meta r.chunk_index r.checksum
  update_page_chunk_metadata p.id next
  pure (record {
    chunk_index = r.chunk_index;
    received = length next.received;
    total_chunks = next.total_chunks;
  })

-- HandleChunkUpload; `body` is the uploaded chunk, if the form has one
unfoldable pub handle_chunk_upload :
    (List ℕ → String) → ℕ → Headers → Option (List ℕ) → Scan Receipt
unfolding receive_chunk
handle_chunk_upload md5_hex user_id headers body = do
  r ← lift (parse_chunk_headers headers)
  job ← get_job_for_user r.job_id user_id
  p ← ensure_page r.job_id r.page_no
  if is_uploaded p.upload_status then raise already_uploaded else receive_chunk md5_hex r body p
