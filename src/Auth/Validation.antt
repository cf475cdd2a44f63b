-- ===== src/Auth/Validation.antt =====
-- backend/internal/auth/validator.go. `len` counts bytes. A text that the source cuts inside a
-- character is cut before that character.
mod Common
use Prim.Native.Char.{Char, code, len_utf8}
use Prim.Native.String.{len}
use study_mate.Prelude.{
  ℕ, zero, suc, ◌+◌, ◌-◌, String, Bool, true, false, not, ◌&&◌, ◌||◌, ◌==◌, ltb, leb, str_eq,
  trim_space, has_prefix, if◌then◌else◌,
}
use study_mate.Exec.{Result, ok, err}
use study_mate.Auth.Model.{
  Env, Error, password_too_short, password_too_long, password_complexity, password_too_common,
  email_invalid, email_too_long, mobile_invalid, class_required,
}
use Common.{is_common_password}

-- the flags of the loop of ValidatePassword, whose cases exclude each other
pub record Flags : Type 0 where
  pub upper : Bool
  pub lower : Bool
  pub digit : Bool

abbrev flag : Env → Char → Flags → Flags
flag env c f =
    if env.is_upper c
    then record f { upper = true }
    else if env.is_lower c
    then record f { lower = true }
    else if env.is_digit c
    then record f { digit = true }
    else f

flags_from : Env → Flags → String → Flags
flags_from env f String.[] = f
flags_from env f (String.◌∷◌ c s) = flags_from env (flag env c f) s

-- ValidatePassword
unfoldable pub validate_password : Env → String → Result Error Unit
unfolding flags_from is_common_password
validate_password env password =
    let f = flags_from env (record { upper = false; lower = false; digit = false }) password in
    if ltb (len password) 8
    then err password_too_short
    else if ltb 72 (len password)
    then err password_too_long
    else if not f.upper || not f.lower || not f.digit
    then err password_complexity
    else if is_common_password (env.to_lower password)
    then err password_too_common
    else ok tt

-- ValidateEmail
unfoldable pub validate_email : Env → String → Result Error String
validate_email env email =
    let e = env.to_lower (trim_space email) in
    if str_eq e ""
    then err email_invalid
    else if ltb 254 (len e)
    then err email_too_long
    else if env.is_address e
    then ok e
    else err email_invalid

-- strings.ReplaceAll of a text of one character by the empty text
unfoldable pub without : ℕ → String → String
without n String.[] = ""
without n (String.◌∷◌ c s) =
    let rest = without n s in if code c == n then rest else String.◌∷◌ c rest

unfoldable pub drop_chars : ℕ → String → String
drop_chars zero s = s
drop_chars (suc n) String.[] = ""
drop_chars (suc n) (String.◌∷◌ c s) = drop_chars n s

-- s[:n], as far as whole characters go
unfoldable pub cut : ℕ → String → String
cut n String.[] = ""
cut n (String.◌∷◌ c s) =
    let rest = cut (n - len_utf8 c) s in if leb (len_utf8 c) n then String.◌∷◌ c rest else ""

abbrev is_digit_char : Char → Bool
is_digit_char c = leb 48 (code c) && leb (code c) 57

all_digits : String → Bool
all_digits String.[] = true
all_digits (String.◌∷◌ c s) = is_digit_char c && all_digits s

abbrev starts_low : String → Bool
starts_low String.[] = false
starts_low (String.◌∷◌ c s) = ltb (code c) 54

-- ValidateMobile
unfoldable pub validate_mobile : String → Result Error String
unfolding without drop_chars all_digits
validate_mobile mobile =
    let plain = without 45 (without 32 (trim_space mobile)) in
    let local = if has_prefix plain "+91" then drop_chars 3 plain else plain in
    let number = if has_prefix local "91" && len local == 12 then drop_chars 2 local else local in
    if not (len number == 10)
    then err mobile_invalid
    else if not (all_digits number)
    then err mobile_invalid
    else if starts_low number
    then err mobile_invalid
    else ok number

-- SanitizeUserInput
unfoldable pub sanitize_user_input : String → String
unfolding without cut
sanitize_user_input s =
    let t = trim_space (without 0 s) in if ltb 1000 (len t) then cut 1000 t else t

-- ValidateClass
unfoldable pub validate_class : String → Result Error String
unfolding sanitize_user_input
validate_class c =
    let t = sanitize_user_input c in
    if str_eq t "" then err class_required else if ltb 50 (len t) then ok (cut 50 t) else ok t
