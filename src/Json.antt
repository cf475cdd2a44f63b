-- ===== src/Json.antt =====
-- Decoded JSON as Go's encoding/json gives it to `map[string]any`, and the type assertions with
-- `, ok` by which backend/internal/billing/webhook.go reads it. A number is kept as the integer to
-- which Go's int64(...) truncates it.
use study_mate.Prelude.{String, Bool, Option, none, some, List, [], ◌∷◌, str_eq, if◌then◌else◌}
use study_mate.Prelude.Integer.{ℤ, pos}

mutual
  pub data Json : Type 0 where
    null : Json
    bool : Bool → Json
    num : ℤ → Json
    str : String → Json
    arr : Items → Json
    obj : Fields → Json

  pub data Items : Type 0 where
    nil : Items
    cons : Json → Items → Items

  pub data Fields : Type 0 where
    end : Fields
    field : String → Json → Fields → Fields

-- m[key], `null` where the key is missing
unfoldable pub get : String → Fields → Json
get k end = null
get k (field j v rest) = if str_eq j k then v else get k rest

-- v.(map[string]any); a missing map reads as the empty one
abbrev pub as_object : Json → Fields
as_object (obj fs) = fs
as_object _ = end

-- v.(string) with its `ok`
abbrev pub as_string? : Json → Option String
as_string? (str s) = some s
as_string? _ = none

-- s, _ := v.(string)
abbrev pub as_string : Json → String
as_string (str s) = s
as_string _ = ""

-- raw, ok := v.(float64); return int64(raw), or 0
abbrev pub as_integer : Json → ℤ
as_integer (num n) = n
as_integer _ = pos 0

string_items : List String → Items
string_items [] = nil
string_items (s ∷ rest) = cons (str s) (string_items rest)

-- json.Marshal of a url.Values: every value of a form is a list of texts
unfoldable pub form_fields : List (String × List String) → Fields
unfolding string_items
form_fields [] = end
form_fields ((k, vs) ∷ rest) = field k (arr (string_items vs)) (form_fields rest)
