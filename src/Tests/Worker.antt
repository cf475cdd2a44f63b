-- ===== src/Tests/Worker.antt =====
-- A job of one photographed page, read by the vision model.
use study_mate.Prelude.{
  ℕ, ◌≡◌, refl, Bool, true, false, none, some, List, [], ◌∷◌, arith, to_lower, map, length,
  trim_space,
}
use study_mate.Exec.{ok, err, call}
use study_mate.Exec.Reading.{IfOk}
use study_mate.Scan.Model.{JobStatus, processing, ocr_complete, quiz_ready}
use study_mate.Ai.Mix.{Settings}
use study_mate.Ai.RateLimit.{no_calls}
use study_mate.Ai.Response.{GeneratedQuestion, true_false}
use study_mate.Scan.Worker.Model.{database, Job, Page, CachedQuiz, GenerateResult, Env, Store}
use study_mate.Scan.Worker.Repository.{
  has_id, job_of, with_job, clear_job_pipeline_text, claim_pending_jobs, get_job, list_pages,
  get_object, update_job_status, update_page_processed, create_quiz_record, create_question,
  create_question_option, create_question_explanation, link_question, update_job_quiz_id,
  delete_object, update_job_chapter_summary,
}
use study_mate.Scan.Worker.Pages.{load_pages, delete_page_objects}
use study_mate.Scan.Worker.Persist.{allowed, log_generation, persist_vision_quiz}
use study_mate.Ai.RateLimit.{allow}
use study_mate.Scan.Worker.Vision.{image_refs}
use study_mate.Scan.Worker.Cache.{lookup, store}
use study_mate.Scan.Worker.Cache.Stored.{SameQuiz, lookup-store}
use study_mate.Scan.Worker.Settle.{finish_job}
use study_mate.Scan.Worker.Process.{process_job}
use study_mate.Scan.Worker.AtRest.Parts.{AtRest}
use study_mate.Scan.Worker.AtRest.{process_job-AtRest}
use study_mate.Scan.Worker.Stuck.{cleanup, stuck_job}

abbrev job : JobStatus → Job
job st = record {
  id = 9;
  user_id = 42;
  book_id = none;
  chapter_id = none;
  mode = "chapter";
  status = st;
  progress = 5;
  quiz_id = none;
  error_message = none;
  generation_strategy = none;
  detected_page_type = none;
  chapter_summary = none;
  chapter_title = none;
  pipeline_text = none;
  created_at = 100;
  updated_at = 200;
}

abbrev page : Page
page = record {
  id = 3;
  scan_job_id = 9;
  page_no = 1;
  image_url = none;
  temp_storage_key = some "temp/9/1.jpg";
  page_type = none;
  ocr_confidence = none;
  content_hash = none;
  processed = false;
}

abbrev desk : JobStatus → Store
desk st = record {
  jobs = job st ∷ [];
  pages = page ∷ [];
  objects = ("temp/9/1.jpg", 0xFF ∷ 0xD8 ∷ []) ∷ [];
  quizzes = [];
  questions = [];
  options = [];
  explanations = [];
  links = [];
  content_cache = [];
  valkey = [];
  logs = [];
  calls = no_calls;
  notices = [];
  next_id = 50;
}

abbrev question : GeneratedQuestion
question = record {
  text = "Is air a gas?";
  question_type = true_false;
  options = record { label = "A"; text = "Yes" } ∷ record { label = "B"; text = "No" } ∷ [];
  correct_index = some 0;
  explanation = "It is.";
  difficulty = "easy";
  topic = "air";
}

abbrev reply : GenerateResult
reply = record {
  questions = question ∷ [];
  chapter_summary = "Air.";
  tokens_used = 10;
  model_used = "m";
}

abbrev settings : Settings
settings = record { getenv = λ k. ""; atoi = λ t. none }

abbrev env : ℕ → Env
env now = record {
  now = now;
  max_pages = 0;
  min_confidence = 0;
  use_gemini_vision = true;
  ocr_provider = "stub";
  has_vision = true;
  vision_provider = "gemini";
  gen_provider = "stub";
  has_cache = true;
  has_valkey = true;
  limiter = record { window = 60; max_calls = 10 };
  settings = settings;
  lower = λ t. to_lower t;
  is_letter = λ c. true;
  digest = λ t. t;
  digest_bytes = λ b. "d";
  show_number = λ n. "n";
  show_pointer = λ p. "p";
  rune = λ n. "X";
  presign = λ t. t;
  extract = λ title n url. record { raw_text = "text"; confidence = 90 };
  generate = λ n r. some reply;
  generate_from_images = λ r. reply;
}

process_job-AtRest_example :
    AtRest 9 (process_job (env 300) 9 (record { store = desk processing; faults = [] })).1.store
process_job-AtRest_example =
    process_job-AtRest (env 300) 9 (desk processing) (job processing) refl refl

-- the objects are deleted, the text is cleared, and the change of status fails
abbrev left_desk : Store
left_desk =
    with_job 9 (λ j. record j { pipeline_text = none; updated_at = 300 })
      (record (desk ocr_complete) { objects = [] })

cleaned :
    cleanup
      (env 300)
      (job processing)
      ("temp/9/1.jpg" ∷ [])
      true
      ""
      (record { store = desk ocr_complete; faults = false ∷ false ∷ true ∷ [] })
    ≡ (ok tt, record { store = left_desk; faults = true ∷ [] })
unfolding cleanup delete_page_objects clear_job_pipeline_text call delete_object
cleaned = refl

stuck_job_example :
    (finish_job
        (env 300)
        (job processing)
        ("temp/9/1.jpg" ∷ [])
        true
        false
        (50, "")
        (record { store = desk ocr_complete; faults = false ∷ false ∷ true ∷ [] })
      ≡ (err database, record { store = left_desk; faults = [] }))
    × (row : Job) × (job_of left_desk 9 ≡ some row)
    × (row.status ≡ ocr_complete)
    × ((later : Env) (fs : List Bool)
        → (process_job later 9 (record { store = left_desk; faults = fs })).1.store ≡ left_desk)
    × ((now limit : ℕ) (fs : List Bool)
        → let r = claim_pending_jobs now limit (record { store = left_desk; faults = fs }) in
          IfOk (λ js. has_id js 9 ≡ false) r.0 × (job_of r.1.store 9 ≡ some row))
stuck_job_example =
    stuck_job (env 300) (job processing) ("temp/9/1.jpg" ∷ []) true false (50, "")
      (record { store = desk ocr_complete; faults = false ∷ false ∷ true ∷ [] }) left_desk []
      (refl, (λ h. refl, tt)) cleaned

abbrev cached : CachedQuiz
cached = record {
  quiz_id = 50;
  question_count = 1;
  cached_at = none;
  expires_at = none;
  subject = "chapter";
  chapter = "";
}

lookup-store_example :
    let held =
      (store (env 300) "k" 9 cached (record { store = desk processing; faults = [] })).1.store in
    (x : CachedQuiz) × ((lookup (env 604000) "k" (record { store = held; faults = [] })).0
      ≡ ok (some x))
    × SameQuiz x cached
lookup-store_example =
    lookup-store (env 300) (env 604000) "k" 9 cached (desk processing) refl refl refl (omega arith)
      (omega arith)

-- the whole run: the row of the job, the quizzes and the notification
abbrev outcome : Store → List JobStatus × ℕ × List (ℕ × ℕ × ℕ)
outcome s = (map (λ (j : Job). j.status) s.jobs, length s.links, s.notices)

page_to_quiz :
    outcome (process_job (env 300) 9 (record { store = desk processing; faults = [] })).1.store
    ≡ (quiz_ready ∷ [], 1, (42, 9, 50) ∷ [])
unfolding process_job get_job call list_pages load_pages get_object update_job_status
    update_page_processed allowed allow log_generation persist_vision_quiz create_quiz_record
    create_question create_question_option create_question_explanation link_question
    update_job_quiz_id delete_page_objects delete_object update_job_chapter_summary image_refs
    trim_space
page_to_quiz = refl
