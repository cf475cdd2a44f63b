-- ===== src/Ai/Response.antt =====
-- The reply of a language model (backend/internal/quiz/ai/provider.go): parseProviderResponse and the
-- validation of its questions. The JSON decoder is a parameter.
mod Cut
pub mod Valid
use study_mate.Prelude.{
  ℕ, suc, String, Bool, true, false, not, ◌||◌, ◌&&◌, ◌==◌, Option, none, some, List, [], ◌∷◌, map,
  length, ltb, str_eq, is_blank, trim_space, if◌then◌else◌,
}
use study_mate.Prelude.Integer.{ℤ, pos, negsuc}
use study_mate.Exec.{Result, ok, err}
use Cut.{extract_json_payload, extract_json_array}

pub data QuestionType : Type 0 where
  mcq fill_blank true_false : QuestionType

pub record GeneratedOption : Type 0 where
  pub label : String
  pub text : String

pub record RawQuestion : Type 0 where
  pub text : String
  pub question_type : String
  pub options : List GeneratedOption
  pub correct_index : Option ℤ
  pub explanation : String
  pub difficulty : String
  pub topic : String

-- a generated question; no index is CorrectIndexUnknown
pub record GeneratedQuestion : Type 0 where
  pub text : String
  pub question_type : QuestionType
  pub options : List GeneratedOption
  pub correct_index : Option ℕ
  pub explanation : String
  pub difficulty : String
  pub topic : String

pub data Error : Type 0 where
  empty_text unsupported_type option_count index_out_of_range : Error
  wrong_count all_failed invalid_json : Error

-- the type of a question, MCQ where there is none
unfoldable pub type_of : String → Option QuestionType
type_of t =
    let s = trim_space t in
    if str_eq s "" || str_eq s "mcq"
    then some mcq
    else if str_eq s "fill_blank"
    then some fill_blank
    else if str_eq s "true_false"
    then some true_false
    else none

abbrev pub min_options : QuestionType → ℕ
min_options mcq = 4
min_options fill_blank = 2
min_options true_false = 2

abbrev pub max_options : QuestionType → ℕ
max_options mcq = 4
max_options fill_blank = 4
max_options true_false = 2

-- an index below the number of options
abbrev pub index_in : ℕ → Option ℤ → Option ℕ
index_in n none = none
index_in n (some (negsuc k)) = none
index_in n (some (pos k)) = if ltb k n then some k else none

abbrev pub index_or : Bool → Option ℕ → Result Error (Option ℕ)
index_or unknown_allowed (some k) = ok (some k)
index_or true none = ok none
index_or false none = err index_out_of_range

abbrev pub question_with :
    RawQuestion → QuestionType → Result Error (Option ℕ) → Result Error GeneratedQuestion
question_with q t (err e) = err e
question_with q t (ok k) = ok (record {
  text = q.text;
  question_type = t;
  options = q.options;
  correct_index = k;
  explanation = q.explanation;
  difficulty = q.difficulty;
  topic = q.topic;
})

abbrev pub typed_question :
    Bool → RawQuestion → Option QuestionType → Result Error GeneratedQuestion
typed_question unknown_allowed q none = err unsupported_type
typed_question unknown_allowed q (some t) =
    let n = length q.options in
    if ltb n (min_options t) || ltb (max_options t) n
    then err option_count
    else question_with q t (index_or unknown_allowed (index_in n q.correct_index))

-- validateRawQuestion
unfoldable pub validate_raw_question : Bool → RawQuestion → Result Error GeneratedQuestion
validate_raw_question unknown_allowed q =
    if is_blank q.text
    then err empty_text
    else typed_question unknown_allowed q (type_of q.question_type)

abbrev pub cons_question :
    Bool
    → Result Error GeneratedQuestion
    → Result Error (List GeneratedQuestion)
    → Result Error (List GeneratedQuestion)
cons_question flexible (ok q) (ok qs) = ok (q ∷ qs)
cons_question flexible (ok q) (err e) = err e
cons_question true (err e) rest = rest
cons_question false (err e) rest = err e

-- the loop of parseAndValidate
unfoldable pub validate_all : Bool → Bool → List RawQuestion → Result Error (List GeneratedQuestion)
unfolding validate_raw_question
validate_all flexible unknown_allowed [] = ok []
validate_all flexible unknown_allowed (q ∷ qs) =
    cons_question flexible (validate_raw_question unknown_allowed q)
      (validate_all flexible unknown_allowed qs)

abbrev pub some_left :
    List RawQuestion → Result Error (List GeneratedQuestion) → Result Error (List GeneratedQuestion)
some_left (q ∷ qs) (ok []) = err all_failed
some_left qs (ok out) = ok out
some_left qs (err e) = err e

-- parseAndValidate; no wanted count is the flexible mode
unfoldable pub parse_and_validate :
    List RawQuestion → ℕ → Bool → Result Error (List GeneratedQuestion)
unfolding validate_all
parse_and_validate questions want unknown_allowed =
    if not (want == 0) && not (length questions == want)
    then err wrong_count
    else some_left questions (validate_all (want == 0) unknown_allowed questions)

pub record Payload : Type 0 where
  pub chapter_summary : String
  pub questions : List RawQuestion

-- json.Unmarshal into a payload and into a list of questions
pub record Decoder : Type 0 where
  pub payload : String → Option Payload
  pub array : String → Option (List RawQuestion)

abbrev with_summary :
    String → Result Error (List GeneratedQuestion) → Result Error (List GeneratedQuestion × String)
with_summary summary (ok qs) = ok (qs, summary)
with_summary summary (err e) = err e

abbrev parse_array :
    Option (List RawQuestion) → ℕ → Bool → Result Error (List GeneratedQuestion × String)
parse_array none want unknown_allowed = err invalid_json
parse_array (some qs) want unknown_allowed =
    with_summary "" (parse_and_validate qs want unknown_allowed)

abbrev parse_payload :
    Option Payload
    → Option (List RawQuestion)
    → ℕ
    → Bool
    → Result Error (List GeneratedQuestion × String)
parse_payload none array want unknown_allowed = parse_array array want unknown_allowed
parse_payload (some p) array want unknown_allowed =
    if length p.questions == 0
    then parse_array array want unknown_allowed
    else with_summary p.chapter_summary (parse_and_validate p.questions want unknown_allowed)

-- parseProviderResponse
unfoldable pub parse_provider_response :
    Decoder → String → ℕ → Bool → Result Error (List GeneratedQuestion × String)
unfolding parse_and_validate extract_json_payload extract_json_array
parse_provider_response decoder content want unknown_allowed =
    let trimmed = extract_json_payload content in
    parse_payload (decoder.payload trimmed) (decoder.array (extract_json_array trimmed)) want
      unknown_allowed
