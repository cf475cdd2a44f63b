-- ===== src/Scan/Worker/Model.antt =====
-- The tables and the memory that the scan worker uses (backend/internal/scan/model.go, cache.go and the
-- migrations), and what it gets from outside. Instants are seconds, a confidence is a whole number of
-- hundredths.
use Prim.Native.Char.{Char}
use study_mate.Prelude.{ℕ, String, Bool, true, false, Option, List}
use study_mate.Exec.{Act}
use study_mate.Scan.Model.{
  JobStatus, pending, queued, processing, needs_strategy, review_ready, quiz_ready, failed,
}
use study_mate.Ai.Detect.{PageType, ScanMode}
use study_mate.Ai.Mix.{Settings, QuestionMix}
use study_mate.Ai.Response.{GeneratedQuestion, QuestionType}
use study_mate.Ai.RateLimit.{RateLimiter, Calls}
use study_mate.Quiz.Model.{AnswerStatus, QuizStatus}
use study_mate.Quiz.Drafts.{Language}

-- what a failed step reports
pub data Error : Type 0 where
  database storage no_pages too_many_pages : Error
  ocr_failed low_confidence all_pages_failed : Error
  vision_not_ready no_images : Error
  rate_limited generator_failed too_few_questions : Error
  cache_failed invalid_cache_input notifier_failed : Error

pub record Job : Type 0 where
  pub id : ℕ
  pub user_id : ℕ
  pub book_id : Option ℕ
  pub chapter_id : Option ℕ
  pub mode : String
  pub status : JobStatus
  pub progress : ℕ
  pub quiz_id : Option ℕ
  pub error_message : Option Error
  pub generation_strategy : Option String
  pub detected_page_type : Option PageType
  pub chapter_summary : Option String
  pub chapter_title : Option String
  pub pipeline_text : Option String
  pub created_at : ℕ
  pub updated_at : ℕ

pub record Page : Type 0 where
  pub id : ℕ
  pub scan_job_id : ℕ
  pub page_no : ℕ
  pub image_url : Option String
  pub temp_storage_key : Option String
  pub page_type : Option PageType
  pub ocr_confidence : Option ℕ
  pub content_hash : Option String
  pub processed : Bool

pub record Quiz : Type 0 where
  pub id : ℕ
  pub chapter_id : Option ℕ
  pub content_hash : String
  pub extracted : Bool  -- the title: "Scanned exam for job" or "Quiz for job"
  pub total_questions : ℕ
  pub status : QuizStatus

-- ai.SourceAIGenerated, ai.SourceScannedExisting
pub data Source : Type 0 where
  ai_generated scanned_existing : Source

pub record Question : Type 0 where
  pub id : ℕ
  pub chapter_id : Option ℕ
  pub content_hash : String
  pub question_type : QuestionType
  pub question_text : String
  pub difficulty : String
  pub source_type : Source
  pub answer_status : AnswerStatus

pub record QuestionOption : Type 0 where
  pub question_id : ℕ
  pub option_label : String
  pub option_text : String
  pub is_correct : Bool

pub record Explanation : Type 0 where
  pub question_id : ℕ
  pub explanation_text : String
  pub language : Language

pub record Link : Type 0 where
  pub quiz_id : ℕ
  pub question_id : ℕ
  pub order_no : ℕ

-- CachedQuiz; no instant is the zero time
pub record CachedQuiz : Type 0 where
  pub quiz_id : ℕ
  pub question_count : ℕ
  pub cached_at : Option ℕ
  pub expires_at : Option ℕ
  pub subject : String
  pub chapter : String

-- a row of content_cache
pub record CacheRow : Type 0 where
  pub content_hash : String
  pub cached : CachedQuiz
  pub expires_at : ℕ
  pub hit_count : ℕ

-- a text in Valkey: an encoded CachedQuiz, a bare number, or neither
pub data Entry : Type 0 where
  encoded : CachedQuiz → Entry
  number : ℕ → Entry
  garbage : Entry

pub record GenerationLog : Type 0 where
  pub scan_job_id : ℕ
  pub provider : String
  pub question_count : ℕ
  pub cache_hit : Bool
  pub failed : Bool

-- the tables, the object storage, Valkey with the instant at which each key ends, the calls that the
-- limiter remembers, and the notifications sent
pub record Store : Type 0 where
  pub jobs : List Job
  pub pages : List Page
  pub objects : List (String × List ℕ)
  pub quizzes : List Quiz
  pub questions : List Question
  pub options : List QuestionOption
  pub explanations : List Explanation
  pub links : List Link
  pub content_cache : List CacheRow
  pub valkey : List (String × Entry × ℕ)
  pub logs : List GenerationLog
  pub calls : Calls
  pub notices : List (ℕ × ℕ × ℕ)
  pub next_id : ℕ

abbrev pub Work : Type 0 → Type 0
Work A = Act Store Error A

-- what the worker asks of the model; the difficulty is always medium, the rules follow from the language
pub record GenerateRequest : Type 0 where
  pub text : String
  pub subject : String
  pub scan_mode : ScanMode
  pub page_type : PageType
  pub mix : QuestionMix
  pub want_summary : Bool
  pub language : Language

-- an empty type of a question, which the worker reads as MCQ, is MCQ here; a negative index is none
pub record GenerateResult : Type 0 where
  pub questions : List GeneratedQuestion
  pub chapter_summary : String
  pub tokens_used : ℕ
  pub model_used : String

pub record VisionRequest : Type 0 where
  pub subject : String
  pub chapter : String
  pub scan_mode : String
  pub max_questions : ℕ
  pub want_summary : Bool
  pub images : List (List ℕ × String)

pub record Extracted : Type 0 where
  pub raw_text : String
  pub confidence : ℕ

-- the configuration, the clock, and the services outside: the OCR and the model, which may answer each
-- attempt otherwise and whose calls may fail besides; digests, texts of numbers and of pointers
pub record Env : Type 0 where
  pub now : ℕ
  pub max_pages : ℕ
  pub min_confidence : ℕ
  pub use_gemini_vision : Bool
  pub ocr_provider : String
  pub has_vision : Bool
  pub vision_provider : String
  pub gen_provider : String
  pub has_cache : Bool
  pub has_valkey : Bool
  pub limiter : RateLimiter
  pub settings : Settings
  pub lower : String → String
  pub is_letter : Char → Bool
  pub digest : String → String
  pub digest_bytes : List ℕ → String
  pub show_number : ℕ → String
  pub show_pointer : Option ℕ → String
  pub rune : ℕ → String
  pub presign : String → String
  pub extract : String → ℕ → String → Extracted
  pub generate : ℕ → GenerateRequest → Option GenerateResult
  pub generate_from_images : VisionRequest → GenerateResult

-- the states in which a job waits for a worker
abbrev pub is_pending_status : JobStatus → Bool
is_pending_status pending = true
is_pending_status queued = true
is_pending_status _ = false

abbrev pub is_processing : JobStatus → Bool
is_processing processing = true
is_processing _ = false

-- the states that ProcessJob leaves alone at once
abbrev pub is_settled : JobStatus → Bool
is_settled quiz_ready = true
is_settled review_ready = true
is_settled failed = true
is_settled needs_strategy = true
is_settled _ = false
