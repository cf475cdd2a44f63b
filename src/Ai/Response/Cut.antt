-- ===== src/Ai/Response/Cut.antt =====
-- extractJSONPayload and extractJSONArray (backend/internal/quiz/ai/provider.go).
use Prim.Native.Char.{code}
use study_mate.Prelude.{
  ℕ, zero, suc, String, Option, none, some, ◌==◌, str_eq, has_prefix, trim_space, if◌then◌else◌,
}

dropped : ℕ → String → String
dropped zero s = s
dropped (suc n) String.[] = ""
dropped (suc n) (String.◌∷◌ c s) = dropped n s

-- strings.TrimPrefix for a prefix of n characters
trim_prefix : ℕ → String → String → String
unfolding dropped
trim_prefix n prefix s = if has_prefix s prefix then dropped n s else s

-- strings.TrimSuffix
trim_suffix : String → String → String
trim_suffix suffix String.[] = ""
trim_suffix suffix (String.◌∷◌ c s) =
    let rest = trim_suffix suffix s in
    if str_eq (String.◌∷◌ c s) suffix then "" else String.◌∷◌ c rest

-- without the fences of a markdown block
unfenced : String → String
unfolding trim_prefix trim_suffix
unfenced raw =
    trim_space (trim_suffix "```" (trim_prefix 3 "```" (trim_prefix 7 "```json" (trim_space raw))))

-- from the first "[" on
from_bracket : String → Option String
from_bracket String.[] = none
from_bracket (String.◌∷◌ c s) =
    let rest = from_bracket s in if code c == 91 then some (String.◌∷◌ c s) else rest

-- up to the last "]"
upto_bracket : String → Option String
upto_bracket String.[] = none
upto_bracket (String.◌∷◌ c s) = elim (upto_bracket s) [
  | some t ↦ some (String.◌∷◌ c t)
  | none ↦ if code c == 93 then some (String.◌∷◌ c "") else none
]

abbrev or_text : String → Option String → String
or_text t none = t
or_text t (some u) = u

abbrev array_in : String → Option String → String
array_in t none = t
array_in t (some u) = or_text t (upto_bracket u)

-- extractJSONArray
unfoldable pub extract_json_array : String → String
unfolding unfenced from_bracket upto_bracket
extract_json_array raw = let t = unfenced raw in array_in t (from_bracket t)

-- extractJSONPayload
unfoldable pub extract_json_payload : String → String
unfolding unfenced extract_json_array
extract_json_payload raw =
    let t = unfenced raw in if has_prefix t "{" then t else extract_json_array t
