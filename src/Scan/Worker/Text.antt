-- ===== src/Scan/Worker/Text.antt =====
-- The text of a job and the quiz made of it: the body of ProcessJob (backend/internal/scan/worker.go).
use study_mate.Prelude.{
  String, Bool, true, false, not, ◌||◌, ◌&&◌, Option, none, some, List, [], ◌∷◌, str_eq, is_blank,
  if◌then◌else◌,
}
use study_mate.Exec.{pure, attempt, ◌>>=◌, ◌>>◌}
use study_mate.Scan.Model.{ocr_complete, needs_strategy}
use study_mate.Ai.Detect.{
  PageType, mixed, ScanMode, no_mode, detect_page_type, resolve_generation_mode,
}
use study_mate.Scan.Worker.Model.{all_pages_failed, Job, CachedQuiz, Env, Work}
use study_mate.Scan.Worker.Repository.{list_pages, update_job_status, update_job_pipeline}
use study_mate.Scan.Worker.Cache.{lookup}
use study_mate.Scan.Worker.Pages.{
  text_or_empty, refs_of, fail_job, process_pages, join_lines, normalize_text,
}
use study_mate.Scan.Worker.Persist.{is_existing, persist_quiz}
use study_mate.Scan.Worker.Settle.{
  or_fail, settle_quiz, finish_cached, should_use_vision, counted_pages,
}

-- the key of the cache, with contentCacheVersion
unfoldable pub content_cache_hash : Env → String → String
content_cache_hash env text =
    env.digest (Prim.Native.String.◌++◌ "vision-v1|" (normalize_text env.lower text))

abbrev pub is_resumed : Job → Bool
is_resumed job = not (is_blank (text_or_empty job.pipeline_text))

unfoldable pub look_in_cache : Env → Job → String → ScanMode → Work (Option CachedQuiz)
look_in_cache env job hash mode =
    if env.has_cache
      && not (str_eq env.gen_provider "stub" || should_use_vision env || is_existing mode)
      && not (is_resumed job)
    then (do found ← attempt (lookup env hash); or_fail env job.id found)
    else pure none

unfoldable pub make_quiz :
    Env → Job → List String → String → String → PageType → ScanMode → Option CachedQuiz → Work Unit
unfolding finish_cached settle_quiz
make_quiz env job refs text hash page_type mode (some cached) = finish_cached env job refs cached
make_quiz env job refs text hash page_type mode none = do
  made ← attempt (persist_quiz env job hash text page_type mode)
  settle_quiz env job refs mode made

is_mixed : PageType → Bool
is_mixed mixed = true
is_mixed _ = false

is_no_mode : ScanMode → Bool
is_no_mode no_mode = true
is_no_mode _ = false

-- a mixed page without a strategy waits for the user
unfoldable pub await_strategy : Env → Job → PageType → String → Work Unit
await_strategy env job page_type text = do
  kept ← attempt (update_job_pipeline env.now job.id page_type text)
  done ← or_fail env job.id kept
  update_job_status env.now job.id needs_strategy 45 none

-- ProcessJob from the joined text on
unfoldable pub process_text : Env → Job → String × List String → Work Unit
unfolding await_strategy look_in_cache make_quiz is_mixed is_no_mode content_cache_hash
process_text env job (text, refs) =
    let page_type = detect_page_type env.lower text in
    let mode =
      resolve_generation_mode job.mode (some page_type) (text_or_empty job.generation_strategy) in
    update_job_status env.now job.id ocr_complete 50 none
    >> (if is_mixed page_type && is_no_mode mode
        then await_strategy env job page_type text
        else look_in_cache env job (content_cache_hash env text) mode
          >>= make_quiz env job refs text (content_cache_hash env text) page_type mode)

unfoldable pub some_text : Env → Job → List String × List String → Work (String × List String)
some_text env job (texts, []) = fail_job env.now job.id all_pages_failed
some_text env job (texts, r ∷ refs) = pure (join_lines texts, r ∷ refs)

-- the joined text of the pages, stored before or read now
unfoldable pub gather_text : Env → Job → Work (String × List String)
unfolding counted_pages some_text
gather_text env job =
    if is_resumed job
    then (do
      listed ← attempt (list_pages job.id)
      pages ← or_fail env job.id listed
      pure (text_or_empty job.pipeline_text, refs_of pages))
    else (do
      pages ← counted_pages env job
      read ← process_pages env job pages
      some_text env job read)
