-- ===== src/Scan/Worker/AtRest/Kept.antt =====
-- The parts of the worker between the changes of a job's status keep its row.
use study_mate.Prelude.{
  ℕ, suc, refl, String, Bool, Option, some, none, List, [], ◌∷◌, any, ◌&&◌, ◌==◌, Bool-cases, inl,
  inr,
}
use study_mate.Exec.{Result, ok, err}
use study_mate.Exec.Calm.{
  Run, run_rules, Run-keep, Run-bind, Run-attempt, Run-if, Run-pure, Run-raise, Run-step,
}
use study_mate.Quiz.Drafts.{Language}
use study_mate.Ai.Detect.{PageType, ScanMode}
use study_mate.Ai.Response.{GeneratedQuestion, GeneratedOption}
use study_mate.Scan.Worker.Model.{
  Error, Job, Page, Source, CachedQuiz, CacheRow, Entry, encoded, number, garbage, GenerateRequest,
  GenerateResult, Extracted, Env, Store, Work,
}
use study_mate.Scan.Worker.Repository.{
  update_page_processed, get_object, create_quiz_record, create_question, create_question_option,
  create_question_explanation, link_question, update_job_quiz_id,
}
use study_mate.Scan.Worker.Cache.{
  delete_valkey, set_valkey, fresh_entry, read_entry, lookup_valkey, count_hit, refill, read_row,
  lookup_postgres, or_postgres, lookup, log_cache_event, put_row, write_valkey, store,
}
use study_mate.Scan.Worker.Pages.{
  add_page, page_object_ref, extract_once, again, process_page, process_pages, loaded, load_page,
  load_pages, Image,
}
use study_mate.Scan.Worker.Persist.{
  allowed, persist_options, persist_question, persist_questions, generate_once, generate_again,
  generate_twice, log_generation, write_quiz, store_if, persist_quiz, persist_vision_quiz,
}
use study_mate.Scan.Worker.AtRest.Parts.{HasJob, HasJob-with_job}

abbrev Keeping : ℕ → {A : Type 0} → Work A → Type 0
Keeping id m = Run (HasJob id) (HasJob id) (HasJob id) m

module _ (id : ℕ) where
  again-Run :
      (env : Env) (job : Job) (url : String) (r : Result Error Extracted)
      → Keeping id (again env job url r)
  unfolding again extract_once
  again-Run env job url (ok r) = Run-pure r
  again-Run env job url (err e) = Run-keep _ _ λ s h. h

  process_page-Run : (env : Env) (job : Job) (page : Page) → Keeping id (process_page env job page)
  unfolding process_page extract_once update_page_processed
  process_page-Run env job page = search (run_rules, Run-keep, again-Run) depth 16

  pub process_pages-Run :
      (env : Env) (job : Job) (pages : List Page) (R : Store → Type 0)
      → Run (HasJob id) (HasJob id) R (process_pages env job pages)
  unfolding process_pages
  process_pages-Run env job [] R = Run-pure _
  process_pages-Run env job (p ∷ ps) R =
      Run-bind _ _ (Run-attempt _ (process_page-Run env job p))
        λ one. Run-bind _ _ (process_pages-Run env job ps R) λ rest. Run-pure (add_page one rest)

  loaded-Run :
      (env : Env) (job : Job) (p : Page) (ref : String) (r : Result Error (List ℕ))
      (before : List Image) (R : Store → Type 0)
      → Run (HasJob id) (HasJob id) R (loaded env job p ref r before)
  unfolding loaded update_page_processed
  loaded-Run env job p ref (ok bytes) before R = search (run_rules, Run-keep) depth 12
  loaded-Run env job p ref (err e) before R = Run-pure _

  load_page-Run :
      (env : Env) (job : Job) (p : Page) (before : List Image) (R : Store → Type 0)
      → Run (HasJob id) (HasJob id) R (load_page env job p before)
  unfolding load_page get_object
  load_page-Run env job p before R = Run-if _ (Run-pure _) (
      Run-bind _ _ (Run-attempt _ (Run-keep _ _ λ s h. h))
        λ bytes. loaded-Run env job p (page_object_ref p) bytes before R)

  pub load_pages-Run :
      (env : Env) (job : Job) (pages : List Page) (before : List Image) (R : Store → Type 0)
      → Run (HasJob id) (HasJob id) R (load_pages env job pages before)
  unfolding load_pages
  load_pages-Run env job [] before R = Run-pure _
  load_pages-Run env job (p ∷ ps) before R =
      Run-bind _ _ (load_page-Run env job p before R) λ so_far. load_pages-Run env job ps so_far R

  read_entry-Run : (now : ℕ) (hash : String) (e : Option Entry) → Keeping id (read_entry now hash e)
  unfolding read_entry fresh_entry delete_valkey
  read_entry-Run now hash none = Run-pure _
  read_entry-Run now hash (some (encoded c)) = search (run_rules, Run-keep) depth 12
  read_entry-Run now hash (some (number n)) = search run_rules depth 12
  read_entry-Run now hash (some garbage) = Run-raise _

  read_row-Run :
      (env : Env) (hash : String) (r : Option CacheRow) → Keeping id (read_row env hash r)
  unfolding read_row refill set_valkey count_hit
  read_row-Run env hash none = Run-pure _
  read_row-Run env hash (some r) = search (run_rules, Run-keep) depth 16

  lookup_postgres-Run : (env : Env) (hash : String) → Keeping id (lookup_postgres env hash)
  unfolding lookup_postgres
  lookup_postgres-Run env hash = search (run_rules, Run-keep, read_row-Run) depth 12

  or_postgres-Run :
      (env : Env) (hash : String) (c : Option CachedQuiz) → Keeping id (or_postgres env hash c)
  or_postgres-Run env hash none = lookup_postgres-Run env hash
  or_postgres-Run env hash (some c) = Run-pure _

  pub lookup-Run : (env : Env) (hash : String) → Keeping id (lookup env hash)
  unfolding lookup lookup_valkey
  lookup-Run env hash =
      search (run_rules, Run-keep, read_entry-Run, lookup_postgres-Run, or_postgres-Run) depth 16

  pub log_cache_event-Run :
      (env : Env) (job_id count : ℕ) (hit : Bool) (R : Store → Type 0)
      → Run (HasJob id) (HasJob id) R (log_cache_event env job_id count hit)
  unfolding log_cache_event
  log_cache_event-Run env job_id count hit R = Run-attempt _ (Run-keep _ _ λ s h. h)

  store-Run :
      (env : Env) (hash : String) (job_id : ℕ) (c : CachedQuiz)
      → Keeping id (store env hash job_id c)
  unfolding store put_row write_valkey set_valkey log_cache_event
  store-Run env hash job_id c = search (run_rules, Run-keep) depth 20

  pub allowed-Run :
      (env : Env) (user_id : ℕ) (R : Store → Type 0)
      → Run (HasJob id) (HasJob id) R (allowed env user_id)
  unfolding allowed
  allowed-Run env user_id R = Run-step _ λ s h. h

  persist_options-Run :
      (env : Env) (question_id : ℕ) (known : Bool) (correct : Option ℕ) (i : ℕ)
      (os : List GeneratedOption)
      → Keeping id (persist_options env question_id known correct i os)
  unfolding persist_options create_question_option
  persist_options-Run env question_id known correct i [] = Run-pure _
  persist_options-Run env question_id known correct i (o ∷ os) =
      Run-bind _ _ (Run-keep _ _ λ s h. h)
        λ _. persist_options-Run env question_id known correct (suc i) os

  link_question-Run : (quiz_id question_id n : ℕ) → Keeping id (link_question quiz_id question_id n)
  unfolding link_question
  link_question-Run quiz_id question_id n = Run-keep _ _ λ s h.
      elim (Bool-cases (any (λ l. l.quiz_id == quiz_id && l.order_no == n) s.links)) [
        | inl t ↦ rw t h
        | inr t ↦ rw t h
      ]

  persist_question-Run :
      (env : Env) (quiz_id : ℕ) (chapter_id : Option ℕ) (hash : String) (q : GeneratedQuestion)
      (source : Source) (language : Language) (n : ℕ) (extract : Bool)
      → Keeping id (persist_question env quiz_id chapter_id hash q source language n extract)
  unfolding persist_question create_question create_question_explanation
  persist_question-Run env quiz_id chapter_id hash q source language n extract =
      search (run_rules, Run-keep, persist_options-Run, link_question-Run) depth 14

  persist_questions-Run :
      (env : Env) (quiz_id : ℕ) (chapter_id : Option ℕ) (hash : String) (source : Source)
      (language : Language) (extract : Bool) (n : ℕ) (qs : List GeneratedQuestion)
      → Keeping id (persist_questions env quiz_id chapter_id hash source language extract n qs)
  unfolding persist_questions
  persist_questions-Run env quiz_id chapter_id hash source language extract n [] = Run-pure _
  persist_questions-Run env quiz_id chapter_id hash source language extract n (q ∷ qs) =
      Run-bind _ _ (persist_question-Run env quiz_id chapter_id hash q source language n extract)
        λ _. persist_questions-Run env quiz_id chapter_id hash source language extract (suc n) qs

  write_quiz-Run :
      (env : Env) (job : Job) (hash : String) (r : GenerateResult) (extract : Bool)
      (fallback : Language)
      → Keeping id (write_quiz env job hash r extract fallback)
  unfolding write_quiz create_quiz_record
  write_quiz-Run env job hash r extract fallback =
      search (run_rules, Run-keep, persist_questions-Run) depth 12

  generate_again-Run :
      (env : Env) (request : GenerateRequest) (minimum : ℕ) (r : Result Error GenerateResult)
      → Keeping id (generate_again env request minimum r)
  unfolding generate_again generate_once
  generate_again-Run env request minimum (ok r) = Run-pure _
  generate_again-Run env request minimum (err e) = Run-keep _ _ λ s h. h

  generate_twice-Run :
      (env : Env) (request : GenerateRequest) (minimum : ℕ)
      → Keeping id (generate_twice env request minimum)
  unfolding generate_twice generate_once
  generate_twice-Run env request minimum = search (run_rules, Run-keep, generate_again-Run) depth 12

  pub log_generation-Run :
      (provider : String) (job_id : ℕ) (r : Result Error GenerateResult) (R : Store → Type 0)
      → Run (HasJob id) (HasJob id) R (log_generation provider job_id r)
  unfolding log_generation
  log_generation-Run provider job_id r R = Run-attempt _ (Run-keep _ _ λ s h. h)

  update_job_quiz_id-Run :
      (now other quiz_id : ℕ) → Keeping id (update_job_quiz_id now other quiz_id)
  unfolding update_job_quiz_id
  update_job_quiz_id-Run now other quiz_id =
      Run-keep _ _ λ s h. HasJob-with_job id other _ s (λ j. refl) h

  pub persist_quiz-Run :
      (env : Env) (job : Job) (hash text : String) (page_type : PageType) (mode : ScanMode)
      → Keeping id (persist_quiz env job hash text page_type mode)
  unfolding persist_quiz store_if
  persist_quiz-Run env job hash text page_type mode =
      search
        (
          run_rules, allowed-Run, generate_twice-Run, log_generation-Run, write_quiz-Run, store-Run,
          update_job_quiz_id-Run,
        )
        depth 20

  pub persist_vision_quiz-Run :
      (env : Env) (job : Job) (hash : String) (r : GenerateResult) (extract : Bool)
      → Keeping id (persist_vision_quiz env job hash r extract)
  unfolding persist_vision_quiz
  persist_vision_quiz-Run env job hash r extract =
      search (run_rules, write_quiz-Run, update_job_quiz_id-Run) depth 14
