-- ===== src/Scan/Worker/Persist.antt =====
-- persistQuiz, persistVisionQuiz and persistQuestion (backend/internal/scan/worker.go).
use study_mate.Prelude.{
  ℕ, suc, ◌+◌, String, Bool, true, false, not, ◌&&◌, Option, none, some, List, [], ◌∷◌, ◌==◌, ltb,
  str_eq, length, if◌then◌else◌,
}
use Prim.Native.String.{◌++◌ as join}
use study_mate.Exec.{Result, ok, err, call, pure, lift, attempt, step, guard, ◌>>=◌, ◌>>◌}
use study_mate.Quiz.Model.{set, unknown, QuizStatus, draft, published}
use study_mate.Quiz.Drafts.{Language, english, detect_content_language}
use study_mate.Ai.Detect.{PageType, ScanMode, chapter, existing, no_mode}
use study_mate.Ai.Mix.{
  QuestionMix, total, default_chapter_mix, default_existing_mix, dev_chapter_mix,
}
use study_mate.Ai.RateLimit.{allow}
use study_mate.Ai.Response.{GeneratedQuestion, GeneratedOption}
use study_mate.Scan.Worker.Model.{
  Error, database, generator_failed, too_few_questions, rate_limited, Job, Source, ai_generated,
  scanned_existing, GenerationLog, GenerateRequest, GenerateResult, Env, Work,
}
use study_mate.Scan.Worker.Repository.{
  update_job_quiz_id, create_quiz_record, create_question, create_question_option,
  create_question_explanation, link_question,
}
use study_mate.Scan.Worker.Cache.{store}

abbrev pub is_existing : ScanMode → Bool
is_existing existing = true
is_existing chapter = false
is_existing no_mode = false

abbrev is_chapter : ScanMode → Bool
is_chapter chapter = true
is_chapter existing = false
is_chapter no_mode = false

-- w.rateLimiter.Allow
unfoldable pub allowed : Env → ℕ → Work Bool
allowed env user_id = step λ s.
    let (granted, calls) = allow env.limiter env.now user_id s.calls in
    (granted, record s { calls = calls })

abbrev pub is_known : Option ℕ → ℕ → Bool
is_known none n = false
is_known (some k) n = ltb k n

abbrev is_correct_at : Option ℕ → ℕ → Bool
is_correct_at none i = false
is_correct_at (some k) i = i == k

-- the loop over the options
unfoldable pub persist_options : Env → ℕ → Bool → Option ℕ → ℕ → List GeneratedOption → Work Unit
persist_options env question_id known correct i [] = pure tt
persist_options env question_id known correct i (o ∷ os) = do
  create_question_option question_id (if str_eq o.label "" then env.rune (65 + i) else o.label)
      o.text (known && is_correct_at correct i)
  persist_options env question_id known correct (suc i) os

-- persistQuestion
unfoldable pub persist_question :
    Env → ℕ → Option ℕ → String → GeneratedQuestion → Source → Language → ℕ → Bool → Work Unit
unfolding persist_options
persist_question env quiz_id chapter_id hash q source language order_no extract = do
  let known = is_known q.correct_index (length q.options)
  id ←
      create_question chapter_id hash q.text q.question_type source q.difficulty
        (if extract && not known then unknown else set)
  persist_options env id known q.correct_index 0 q.options
  create_question_explanation id q.explanation language
  link_question quiz_id id order_no

-- the loop over the questions
unfoldable pub persist_questions :
    Env → ℕ → Option ℕ → String → Source → Language → Bool → ℕ → List GeneratedQuestion → Work Unit
persist_questions env quiz_id chapter_id hash source language extract n [] = pure tt
persist_questions env quiz_id chapter_id hash source language extract n (q ∷ qs) = do
  persist_question env quiz_id chapter_id hash q source language n extract
  persist_questions env quiz_id chapter_id hash source language extract (suc n) qs

option_texts : List GeneratedOption → String
option_texts [] = ""
option_texts (o ∷ os) = let rest = option_texts os in join " " (join o.text rest)

question_texts : List GeneratedQuestion → String
unfolding option_texts
question_texts [] = ""
question_texts (q ∷ qs) =
    let rest = question_texts qs in
    join q.text (join " " (join q.explanation (join (option_texts q.options) rest)))

-- DetectQuestionsLanguage, with a fallback that is a language already
unfoldable pub detect_questions_language : Env → List GeneratedQuestion → Language → Language
unfolding question_texts
detect_questions_language env [] fallback = fallback
detect_questions_language env (q ∷ qs) fallback =
    detect_content_language env.is_letter (question_texts (q ∷ qs))

-- the number of questions that a mode asks for
unfoldable pub mix_of : Env → ScanMode → QuestionMix
mix_of env mode =
    if is_existing mode
    then default_existing_mix env.settings
    else if str_eq env.gen_provider "stub" && is_chapter mode
    then dev_chapter_mix env.settings
    else default_chapter_mix env.settings

abbrev pub or_five : ℕ → ℕ
or_five n = if n == 0 then 5 else n

abbrev pub enough : ℕ → Option GenerateResult → Result Error GenerateResult
enough minimum none = err too_few_questions
enough minimum (some r) = if ltb (length r.questions) minimum then err too_few_questions else ok r

-- one round of the loop of persistQuiz
unfoldable pub generate_once : Env → GenerateRequest → ℕ → ℕ → Work GenerateResult
generate_once env request minimum n =
    call generator_failed λ s. (enough minimum (env.generate n request), s)

unfoldable pub generate_again :
    Env → GenerateRequest → ℕ → Result Error GenerateResult → Work GenerateResult
unfolding generate_once
generate_again env request minimum (ok r) = pure r
generate_again env request minimum (err e) = generate_once env request minimum 1

-- the loop of persistQuiz: at most two attempts
unfoldable pub generate_twice : Env → GenerateRequest → ℕ → Work GenerateResult
unfolding generate_again
generate_twice env request minimum = do
  first ← attempt (generate_once env request minimum 0)
  generate_again env request minimum first

abbrev count_of : Result Error GenerateResult → ℕ
count_of (err e) = 0
count_of (ok r) = length r.questions

abbrev has_failed : Result Error GenerateResult → Bool
has_failed (err e) = true
has_failed (ok r) = false

abbrev generation_log : String → ℕ → Result Error GenerateResult → GenerationLog
generation_log provider job_id r = record {
  scan_job_id = job_id;
  provider = provider;
  question_count = count_of r;
  cache_hit = false;
  failed = has_failed r;
}

-- ai.LogGeneration: a failure is only written to the log
unfoldable pub log_generation : String → ℕ → Result Error GenerateResult → Work (Result Error Unit)
log_generation provider job_id r =
    attempt
      (call database λ s. (ok tt, record s { logs = generation_log provider job_id r ∷ s.logs }))

abbrev source_of : Bool → Source
source_of true = scanned_existing
source_of false = ai_generated

abbrev pub status_of : Bool → QuizStatus
status_of true = draft
status_of false = published

-- the part of both persist functions that writes the quiz and its questions
unfoldable pub write_quiz : Env → Job → String → GenerateResult → Bool → Language → Work ℕ
unfolding persist_questions persist_question detect_questions_language
write_quiz env job hash r extract fallback = do
  quiz_id ← create_quiz_record job.chapter_id hash extract (length r.questions) (status_of extract)
  persist_questions env quiz_id job.chapter_id hash (source_of extract)
      (detect_questions_language env r.questions fallback) extract 1 r.questions
  pure quiz_id

abbrev mode_text : ScanMode → String
mode_text chapter = "chapter"
mode_text existing = "existing_questions"
mode_text no_mode = ""

abbrev chapter_label : Env → Option ℕ → String
chapter_label env none = ""
chapter_label env (some id) = env.show_number id

-- the entry that persistQuiz stores in the cache, unless the quiz is a draft
unfoldable pub store_if : Env → Job → String → ScanMode → ℕ → GenerateResult → Work Unit
store_if env job hash mode quiz_id r =
    if env.has_cache && not (is_existing mode)
    then store env hash job.id (record {
      quiz_id = quiz_id;
      question_count = length r.questions;
      cached_at = none;
      expires_at = none;
      subject = mode_text mode;
      chapter = chapter_label env job.chapter_id;
    })
    else pure tt

unfoldable pub request_of : Env → Job → String → PageType → ScanMode → GenerateRequest
unfolding mix_of
request_of env job text page_type mode = record {
  text = text;
  subject = job.mode;
  scan_mode = mode;
  page_type = page_type;
  mix = mix_of env mode;
  want_summary = is_chapter mode;
  language = detect_content_language env.is_letter text;
}

-- persistQuiz
unfoldable pub persist_quiz : Env → Job → String → String → PageType → ScanMode → Work (ℕ × String)
unfolding allowed request_of mix_of generate_twice log_generation write_quiz store_if
persist_quiz env job hash text page_type mode = do
  granted ← allowed env job.user_id
  guard granted rate_limited
  let request = request_of env job text page_type mode
  reply ← attempt (generate_twice env request (or_five (total (mix_of env mode))))
  logged ← log_generation env.gen_provider job.id reply
  r ← lift reply
  quiz_id ← write_quiz env job hash r (is_existing mode) request.language
  store_if env job hash mode quiz_id r
  update_job_quiz_id env.now job.id quiz_id
  pure (quiz_id, r.chapter_summary)

-- persistVisionQuiz; the fallback language of an empty reply is english
unfoldable pub persist_vision_quiz : Env → Job → String → GenerateResult → Bool → Work (ℕ × String)
unfolding write_quiz
persist_vision_quiz env job hash r extract = do
  quiz_id ← write_quiz env job hash r extract english
  update_job_quiz_id env.now job.id quiz_id
  pure (quiz_id, r.chapter_summary)
