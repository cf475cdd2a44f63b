-- ===== src/Tests/Ai.antt =====
-- A limiter of two calls a minute, and replies of a language model.
use study_mate.Prelude.{
  ◌≡◌, ◌≤◌, refl, false, Option, none, some, List, [], ◌∷◌, length, All, arith, has_prefix,
  is_blank, to_lower,
}
use study_mate.Prelude.Integer.{ℤ, pos, negsuc}
use study_mate.Exec.{ok}
use study_mate.Ai.Detect.{detect_page_type, contains, score, mixed}
use study_mate.Ai.Response.{
  RawQuestion, GeneratedQuestion, true_false, validate_all, validate_raw_question, type_of,
  parse_and_validate, Decoder, parse_provider_response,
}
use study_mate.Ai.Response.Valid.{IsSound, parse_and_validate-IsSound}
use study_mate.Ai.RateLimit.{RateLimiter, no_calls, new_rate_limiter, allow}
use study_mate.Ai.RateLimit.Spaced.{Call, grants, reference, IsCapped, grants-reference}

abbrev limiter : RateLimiter
limiter = new_rate_limiter 2 60

abbrev calls_of_7 : List Call
calls_of_7 =
    record { now = 0; user = 7 }
    ∷ record { now = 10; user = 7 }
    ∷ record { now = 20; user = 7 }
    ∷ record { now = 65; user = 7 }
    ∷ []

granted_three : grants limiter 7 calls_of_7 no_calls [] ≡ 65 ∷ 10 ∷ 0 ∷ []
unfolding grants new_rate_limiter allow
granted_three = refl

grants-reference_example :
    (grants limiter 7 calls_of_7 no_calls [] ≡ reference limiter 7 calls_of_7 [])
    × IsCapped limiter (grants limiter 7 calls_of_7 no_calls [])
grants-reference_example =
    grants-reference limiter 7 0 calls_of_7
      (omega arith, (omega arith, (omega arith, (omega arith, tt))))

mixed_page : detect_page_type (λ t. to_lower t) "Chapter 1. Choose: what is air?" ≡ mixed
unfolding detect_page_type score contains is_blank to_lower has_prefix
mixed_page = refl

abbrev yes_no : Option ℤ → RawQuestion
yes_no index = record {
  text = "Is air a gas?";
  question_type = "true_false";
  options = record { label = "A"; text = "Yes" } ∷ record { label = "B"; text = "No" } ∷ [];
  correct_index = index;
  explanation = "It is.";
  difficulty = "easy";
  topic = "air";
}

abbrev generated : GeneratedQuestion
generated = record {
  text = "Is air a gas?";
  question_type = true_false;
  options = record { label = "A"; text = "Yes" } ∷ record { label = "B"; text = "No" } ∷ [];
  correct_index = some 0;
  explanation = "It is.";
  difficulty = "easy";
  topic = "air";
}

-- a question without an answer is left out where the count is free
abbrev two_raw : List RawQuestion
two_raw = yes_no (some (negsuc 0)) ∷ yes_no (some (pos 0)) ∷ []

parsed : parse_and_validate two_raw 0 false ≡ ok (generated ∷ [])
unfolding parse_and_validate validate_all validate_raw_question type_of is_blank
parsed = refl

parse_and_validate-IsSound_example :
    All (IsSound false) (generated ∷ [])
    × ((1 ≤ 0) → length (generated ∷ []) ≡ 0)
    × ((1 ≤ length two_raw) → 1 ≤ length (generated ∷ []))
parse_and_validate-IsSound_example =
    parse_and_validate-IsSound two_raw 0 false (generated ∷ []) parsed

abbrev decoder : Decoder
decoder = record { payload = λ t. none; array = λ t. some (yes_no (some (pos 0)) ∷ []) }

replied : parse_provider_response decoder "```json [x] ```" 1 false ≡ ok (generated ∷ [], "")
unfolding parse_provider_response parse_and_validate validate_all validate_raw_question type_of
    is_blank
replied = refl
