-- ===== src/Ai/Detect.antt =====
-- backend/internal/quiz/ai/pagedetect.go with the constants of modes.go. strings.ToLower is a parameter.
use study_mate.Prelude.{
  ℕ, suc, String, Bool, ◌||◌, ◌&&◌, Option, none, some, List, [], ◌∷◌, leb, str_eq, has_prefix,
  is_blank, trim_space, if◌then◌else◌,
}

pub data PageType : Type 0 where
  chapter_text existing_questions mixed : PageType

-- ScanModeChapter, ScanModeExistingQuestions, and the empty text for none
pub data ScanMode : Type 0 where
  chapter existing no_mode : ScanMode

-- strings.Contains
unfoldable pub contains : String → String → Bool
contains String.[] t = str_eq t ""
contains (String.◌∷◌ c s) t = has_prefix (String.◌∷◌ c s) t || contains s t

-- how many of the markers a text holds
unfoldable pub score : String → List String → ℕ
unfolding contains
score text [] = 0
score text (m ∷ rest) = let n = score text rest in if contains text m then suc n else n

abbrev question_markers : List String
question_markers =
    "?" ∷ "answer:" ∷ "answers:" ∷ "choose" ∷ "select" ∷ "fill in the blank" ∷ "fill in the blanks"
    ∷ "true or false" ∷ "true/false" ∷ "mcq" ∷ "question " ∷ "q." ∷ "q1" ∷ "q2" ∷ "option a"
    ∷ "option b" ∷ []

abbrev chapter_markers : List String
chapter_markers =
    "topic:" ∷ "chapter" ∷ "introduction" ∷ "summary" ∷ "learn about" ∷ "definition" ∷ []

-- DetectPageType
unfoldable pub detect_page_type : (String → String) → String → PageType
unfolding score
detect_page_type lower text =
    let q = score (lower text) question_markers in
    let c = score (lower text) chapter_markers in
    if is_blank text
    then chapter_text
    else if leb 2 q && leb 1 c
    then mixed
    else if leb 2 q
    then existing_questions
    else chapter_text

mixed_mode : String → ScanMode
mixed_mode strategy =
    if str_eq strategy "extract_questions"
    then existing
    else if str_eq strategy "generate_from_chapter"
    then chapter
    else no_mode

-- ResolveGenerationMode; no page type is one that is none of the three
unfoldable pub resolve_generation_mode : String → Option PageType → String → ScanMode
unfolding mixed_mode
resolve_generation_mode job_mode (some existing_questions) strategy = existing
resolve_generation_mode job_mode (some chapter_text) strategy = chapter
resolve_generation_mode job_mode (some mixed) strategy = mixed_mode strategy
resolve_generation_mode job_mode none strategy =
    if str_eq job_mode "existing_questions" then existing else chapter

-- ValidScanMode
unfoldable pub valid_scan_mode : String → Bool
valid_scan_mode m =
    let t = trim_space m in str_eq t "chapter" || str_eq t "existing_questions" || str_eq t ""

-- ValidGenerationStrategy
unfoldable pub valid_generation_strategy : String → Bool
valid_generation_strategy s =
    let t = trim_space s in str_eq t "extract_questions" || str_eq t "generate_from_chapter"
