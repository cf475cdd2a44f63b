-- ===== src/Quiz/Drafts.antt =====
-- The reviewer's edits of a scanned exam and their validation (backend/internal/quiz/review.go), and
-- the language of a text (backend/internal/quiz/ai/language.go).
pub mod Validated
use study_mate.Prelude.{
  ℕ, suc, ◌+◌, ◌/◌, String, Bool, true, false, ◌&&◌, ◌||◌, Option, none, some, List, [], ◌∷◌, ltb,
  leb, str_eq, length, get_elem?, trim_space, is_blank, if◌then◌else◌,
}
use study_mate.Prelude.Integer.{ℤ, pos, negsuc}
use Prim.Native.Char.{Char, code}
use study_mate.Exec.{Result, ok, err}
use study_mate.Quiz.Model.{
  AnswerStatus, set, unknown, Error, draft_empty, empty_text, invalid_type, option_count,
}

pub record OptionInput : Type 0 where
  pub label : String
  pub text : String

pub record QuestionInput : Type 0 where
  pub text : String
  pub question_type : String
  pub correct_index : ℤ
  pub explanation : String
  pub options : List OptionInput

-- the correct option of a question without an answer is `none`, where the source has -1
pub record NormalizedQuestion : Type 0 where
  pub text : String
  pub question_type : String
  pub answer_status : AnswerStatus
  pub explanation : String
  pub correct_index : Option ℕ
  pub options : List OptionInput

-- the `switch` on the type: how few and how many options it takes
unfoldable pub option_bounds : String → Option (ℕ × ℕ)
option_bounds t =
    if str_eq t "mcq"
    then some (2, 6)
    else if str_eq t "fill_blank"
    then some (2, 4)
    else if str_eq t "true_false"
    then some (2, 2)
    else none

abbrev or_empty : Option String → String
or_empty none = ""
or_empty (some s) = s

-- 'A' + n; no type takes an option after the sixth
unfoldable pub default_label : ℕ → String
default_label n = or_empty (get_elem? ("A" ∷ "B" ∷ "C" ∷ "D" ∷ "E" ∷ "F" ∷ []) n)

-- the loop over the options, with `n` options kept before
unfoldable pub kept_options : ℕ → List OptionInput → List OptionInput
unfolding default_label
kept_options n [] = []
kept_options n (o ∷ rest) =
    let blank = is_blank o.text in
    let others = kept_options (if blank then n else suc n) rest in
    if blank
    then others
    else record {
      label = if is_blank o.label then default_label n else trim_space o.label;
      text = trim_space o.text;
    }
      ∷ others

-- an index below 0 or past the options stands for no answer
unfoldable pub answer_index : ℤ → ℕ → Option ℕ
answer_index (pos i) n = if ltb i n then some i else none
answer_index (negsuc i) n = none

abbrev pub status_of : Option ℕ → AnswerStatus
status_of none = unknown
status_of (some i) = set

-- the question that is stored, with its trimmed options
unfoldable pub normalized : QuestionInput → List OptionInput → NormalizedQuestion
unfolding answer_index
normalized q opts =
    let index = answer_index q.correct_index (length opts) in
    record {
      text = trim_space q.text;
      question_type = trim_space q.question_type;
      answer_status = status_of index;
      explanation = trim_space q.explanation;
      correct_index = index;
      options = opts;
    }

unfoldable pub normalized_within :
    QuestionInput → List OptionInput → Option (ℕ × ℕ) → Result Error NormalizedQuestion
normalized_within q opts none = err invalid_type
normalized_within q opts (some (lo, hi)) =
    if ltb (length opts) lo || ltb hi (length opts)
    then err option_count
    else ok (normalized q opts)

-- one round of the loop of validateDraftInput
unfoldable pub normalize : QuestionInput → Result Error NormalizedQuestion
unfolding normalized_within
normalize q =
    if is_blank q.text
    then err empty_text
    else normalized_within q (kept_options 0 q.options) (option_bounds (trim_space q.question_type))

abbrev pub cons_result :
    {A : Type 0} → Result Error A → Result Error (List A) → Result Error (List A)
cons_result (err e) rest = err e
cons_result (ok a) (err e) = err e
cons_result (ok a) (ok rest) = ok (a ∷ rest)

unfoldable pub normalize_all : List QuestionInput → Result Error (List NormalizedQuestion)
normalize_all [] = ok []
normalize_all (q ∷ rest) = cons_result (normalize q) (normalize_all rest)

-- validateDraftInput
unfoldable pub validate_draft_input : List QuestionInput → Result Error (List NormalizedQuestion)
validate_draft_input [] = err draft_empty
validate_draft_input (q ∷ rest) = normalize_all (q ∷ rest)

-- the values of DetectContentLanguage
pub data Language : Type 0 where
  english hindi : Language

letters_in : (Char → Bool) → String → ℕ × ℕ
letters_in is_letter String.[] = (0, 0)
letters_in is_letter (String.◌∷◌ c s) =
    let (latin, other) = letters_in is_letter s in
    if is_letter c
    then if leb (code c) 127 then (suc latin, other) else (latin, suc other)
    else (latin, other)

-- DetectContentLanguage, with unicode.IsLetter as a parameter
unfoldable pub detect_content_language : (Char → Bool) → String → Language
unfolding letters_in
detect_content_language is_letter text =
    let (latin, other) = letters_in is_letter (trim_space text) in
    if ltb (latin / 2) other then hindi else english

-- ExplanationDBCode, on those values
unfoldable pub explanation_db_code : Language → String
explanation_db_code english = "en"
explanation_db_code hindi = "hi"
