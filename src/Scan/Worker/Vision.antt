-- ===== src/Scan/Worker/Vision.antt =====
-- processJobVision (backend/internal/scan/worker.go).
use study_mate.Prelude.{
  ℕ, String, Bool, true, false, none, List, [], ◌∷◌, ◌++◌, str_eq, trim_space, if◌then◌else◌,
}
use study_mate.Exec.{Result, ok, call, pure, attempt, ◌>>=◌, ◌>>◌}
use study_mate.Scan.Model.{ocr_complete}
use study_mate.Ai.Mix.{vision_max_questions}
use study_mate.Scan.Worker.Model.{
  Error, generator_failed, no_images, Job, VisionRequest, GenerateResult, Env, Work,
}
use study_mate.Scan.Worker.Repository.{update_job_status}
use study_mate.Scan.Worker.Pages.{text_or_empty, fail_job, Image, load_pages}
use study_mate.Scan.Worker.Persist.{allowed, persist_vision_quiz, log_generation}
use study_mate.Scan.Worker.Settle.{or_fail, finish_job, requeue, counted_pages}

all_bytes : List Image → List ℕ
all_bytes [] = []
all_bytes (i ∷ is) = i.bytes ++ all_bytes is

unfoldable pub image_refs : List Image → List String
image_refs [] = []
image_refs (i ∷ is) = i.ref ∷ image_refs is

sent_images : List Image → List (List ℕ × String)
sent_images [] = []
sent_images (i ∷ is) = (i.bytes, i.mime) ∷ sent_images is

-- normalizeScanMode
unfoldable pub normalize_scan_mode : String → String
normalize_scan_mode m = let t = trim_space m in if str_eq t "" then "chapter" else t

vision_request : Env → Job → List Image → VisionRequest
unfolding normalize_scan_mode sent_images
vision_request env job images = record {
  subject = job.mode;
  chapter = text_or_empty job.chapter_title;
  scan_mode = normalize_scan_mode job.mode;
  max_questions = vision_max_questions env.settings;
  want_summary = str_eq (normalize_scan_mode job.mode) "chapter";
  images = sent_images images;
}

unfoldable pub write_vision : Env → Job → List Image → Bool → GenerateResult → Work Unit
unfolding all_bytes
write_vision env job images extract r = do
  made ← attempt (persist_vision_quiz env job (env.digest_bytes (all_bytes images)) r extract)
  quiz ← or_fail env job.id made
  finish_job env job (image_refs images) false extract quiz

-- processJobVision from the model's reply on
unfoldable pub settle_vision : Env → Job → List Image → Result Error GenerateResult → Work Unit
unfolding write_vision
settle_vision env job images reply = do
  logged ← log_generation env.vision_provider job.id reply
  r ← or_fail env job.id reply
  write_vision env job images (str_eq (normalize_scan_mode job.mode) "existing_questions") r

unfoldable pub ask_vision : Env → Job → List Image → Bool → Work Unit
unfolding settle_vision requeue vision_request
ask_vision env job images false = requeue env job.id
ask_vision env job images true = do
  reply ← attempt (
      call generator_failed λ s. (ok (env.generate_from_images (vision_request env job images)), s))
  settle_vision env job images reply

unfoldable pub some_images : Env → Job → List Image → Work Unit
some_images env job [] = fail_job env.now job.id no_images
some_images env job (i ∷ is) = pure tt

-- processJobVision
unfoldable pub process_job_vision : Env → Job → Work Unit
unfolding counted_pages some_images ask_vision
process_job_vision env job = do
  pages ← counted_pages env job
  images ← load_pages env job pages []
  some_images env job images
  update_job_status env.now job.id ocr_complete 50 none
  granted ← allowed env job.user_id
  ask_vision env job images granted
