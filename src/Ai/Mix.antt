-- ===== src/Ai/Mix.antt =====
-- backend/internal/quiz/ai/mix.go. The environment's variables and strconv.Atoi are parameters.
use study_mate.Prelude.{ℕ, ◌+◌, String, Option, none, some, str_eq, trim_space, ltb, if◌then◌else◌}
use study_mate.Prelude.Integer.{ℤ, pos, negsuc}

pub record Settings : Type 0 where
  pub getenv : String → String
  pub atoi : String → Option ℤ

pub record QuestionMix : Type 0 where
  pub mcq : ℕ
  pub fill_blank : ℕ
  pub true_false : ℕ

-- QuestionMix.Total
abbrev pub total : QuestionMix → ℕ
total m = m.mcq + m.fill_blank + m.true_false

abbrev count_or : ℕ → Option ℤ → ℕ
count_or fallback none = fallback
count_or fallback (some (negsuc n)) = fallback
count_or fallback (some (pos n)) = n

-- envCount
unfoldable pub env_count : Settings → String → ℕ → ℕ
env_count settings key fallback =
    let v = trim_space (settings.getenv key) in
    if str_eq v "" then fallback else count_or fallback (settings.atoi v)

-- DefaultChapterMix
unfoldable pub default_chapter_mix : Settings → QuestionMix
unfolding env_count
default_chapter_mix settings = record {
  mcq = env_count settings "AI_MCQ_COUNT" 20;
  fill_blank = env_count settings "AI_FILL_COUNT" 20;
  true_false = env_count settings "AI_TF_COUNT" 10;
}

-- DefaultExistingMix
unfoldable pub default_existing_mix : Settings → QuestionMix
unfolding env_count
default_existing_mix settings = record {
  mcq = env_count settings "AI_EXISTING_MCQ_COUNT" 20;
  fill_blank = 0;
  true_false = 0;
}

-- DevChapterMix
unfoldable pub dev_chapter_mix : Settings → QuestionMix
unfolding default_chapter_mix
dev_chapter_mix settings =
    let small : QuestionMix = record { mcq = 5; fill_blank = 5; true_false = 3 } in
    if str_eq (trim_space (settings.getenv "AI_FULL_MIX")) "1"
    then default_chapter_mix settings
    else small

abbrev at_least_one : ℕ → ℕ
at_least_one n = if ltb n 1 then 1 else n

-- VisionMaxQuestionsDefault
unfoldable pub vision_max_questions : Settings → ℕ
unfolding env_count
vision_max_questions settings = env_count settings "AI_VISION_MAX_QUESTIONS" 60

-- VisionMinQuestionsDefault
unfoldable pub vision_min_questions : Settings → ℕ
unfolding env_count
vision_min_questions settings = at_least_one (env_count settings "AI_VISION_MIN_QUESTIONS" 1)

-- VisionQuestionsPerPage
unfoldable pub vision_questions_per_page : Settings → ℕ
unfolding env_count
vision_questions_per_page settings =
    at_least_one (env_count settings "AI_VISION_QUESTIONS_PER_PAGE" 6)

-- VisionPagesPerBatch
unfoldable pub vision_pages_per_batch : Settings → ℕ
unfolding env_count
vision_pages_per_batch settings = at_least_one (env_count settings "AI_VISION_PAGES_PER_BATCH" 3)
