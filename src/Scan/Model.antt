-- ===== src/Scan/Model.antt =====
-- The rows and payloads of backend/internal/scan/model.go that an upload uses, and the object storage.
-- A key of the storage is kept as what its text is printed from; bytes are numbers.
use study_mate.Prelude.{ℕ, ◌*◌, ◌/◌, String, Bool, true, false, ◌&&◌, Option, List, ◌==◌}
use study_mate.Prelude.Integer.{ℤ}
use study_mate.Exec.{Act}

-- ScanJobStatus
pub data JobStatus : Type 0 where
  uploading pending queued processing ocr_complete needs_strategy : JobStatus
  review_ready quiz_ready completed failed : JobStatus

abbrev pub is_uploading : JobStatus → Bool
is_uploading uploading = true
is_uploading _ = false

-- ScanPage.UploadStatus
pub data UploadStatus : Type 0 where
  not_started in_transfer uploaded : UploadStatus

abbrev pub is_uploaded : UploadStatus → Bool
is_uploaded uploaded = true
is_uploaded not_started = false
is_uploaded in_transfer = false

-- PageChunkMetadata
pub record PageChunkMetadata : Type 0 where
  pub total_chunks : ℕ
  pub received : List ℕ
  pub checksums : List (ℕ × String)

-- chunkObjectKey, and the key of a composed page with its random part and its extension
pub data Key : Type 0 where
  chunk_object_key : ℕ → ℕ → ℕ → Key
  final_key : ℕ → ℕ → String → String → Key

abbrev pub same_chunk : ℕ → ℕ → ℕ → Key → Bool
same_chunk job page i (chunk_object_key j p k) = j == job && p == page && k == i
same_chunk job page i (final_key j p u e) = false

-- the keys that begin with temp/chunks/<job>/<page>/
abbrev pub has_chunk_prefix : ℕ → ℕ → Key → Bool
has_chunk_prefix job page (chunk_object_key j p k) = j == job && p == page
has_chunk_prefix job page (final_key j p u e) = false

pub record ScanJob : Type 0 where
  pub id : ℕ
  pub user_id : ℕ
  pub status : JobStatus
  pub progress : ℕ

-- the metadata is `none` where the column holds no decodable metadata, as {} does
pub record ScanPage : Type 0 where
  pub id : ℕ
  pub scan_job_id : ℕ
  pub page_no : ℕ
  pub upload_status : UploadStatus
  pub chunk_metadata : Option PageChunkMetadata
  pub temp_storage_key : Option Key

pub record Store : Type 0 where
  pub jobs : List ScanJob
  pub pages : List ScanPage
  pub objects : List (Key × List ℕ)
  pub next_id : ℕ

-- the HTTP statuses of writeUploadError, and the two conflicts
pub data Error : Type 0 where
  bad_request not_found internal already_uploaded already_received : Error

abbrev pub Scan : Type 0 → Type 0
Scan A = Act Store Error A

abbrev pub chunk_size_bytes : ℕ
chunk_size_bytes = 512 * 1024

-- storage.MaxPageUploadSize
abbrev pub max_page_upload_size : ℕ
max_page_upload_size = 10 * 1048576

abbrev pub max_chunks_per_page : ℕ
max_chunks_per_page = max_page_upload_size / chunk_size_bytes

-- what strconv finds in the headers, `none` where it fails, and the checksum's text
pub record Headers : Type 0 where
  pub job_id : Option ℤ
  pub page_number : Option ℤ
  pub chunk_index : Option ℤ
  pub total_chunks : Option ℤ
  pub checksum : String
