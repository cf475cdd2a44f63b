-- ===== src/Prelude/Text.antt =====
-- Go's `strings` functions that the program calls: TrimSpace with the white space of package
-- unicode, ToLower on the ASCII letters (the only ones that the compared words hold), HasPrefix.
use Prim.Native.Nat.{ℕ}
use Prim.Native.Char.{Char, code}
use Prim.Native.String.{String}
use mathlib.Core.Path.{◌≡◌, refl}
use mathlib.Core.Logic.{◌≢◌}
use native.Mathlib.Omega.{arith}
use text.Mathlib.TextEquality.{eq_iff}
use mathlib.Core.Bool.{Bool, true, false, ◌&&◌, ◌||◌}
use mathlib.Core.List.{List, [], ◌∷◌}
use text.Mathlib.Text.{starts_with, ◌==◌ as str_eq}
use study_mate.Prelude.Tests.{leb, ◌==◌, if◌then◌else◌}

is_space : ℕ → Bool
is_space c =
    (leb 9 c && leb c 13)
    || c == 32
    || c == 0x85
    || c == 0xA0
    || c == 0x1680
    || (leb 0x2000 c && leb c 0x200A)
    || c == 0x2028
    || c == 0x2029
    || c == 0x202F
    || c == 0x205F
    || c == 0x3000

trim_left : String → String
trim_left String.[] = ""
trim_left (String.◌∷◌ c s) = if is_space (code c) then trim_left s else String.◌∷◌ c s

trim_right : String → String
trim_right String.[] = ""
trim_right (String.◌∷◌ c s) =
    let rest = trim_right s in if str_eq rest "" && is_space (code c) then "" else String.◌∷◌ c rest

-- strings.TrimSpace
unfoldable pub trim_space : String → String
unfolding is_space trim_left trim_right
trim_space s = trim_right (trim_left s)

-- strings.TrimSpace(s) == ""
unfoldable pub is_blank : String → Bool
unfolding trim_space
is_blank s = str_eq (trim_space s) ""

abbrev lower_letters : List (ℕ × Char)
lower_letters =
    (65, "a")
    ∷ (66, "b")
    ∷ (67, "c")
    ∷ (68, "d")
    ∷ (69, "e")
    ∷ (70, "f")
    ∷ (71, "g")
    ∷ (72, "h")
    ∷ (73, "i")
    ∷ (74, "j")
    ∷ (75, "k")
    ∷ (76, "l")
    ∷ (77, "m")
    ∷ (78, "n")
    ∷ (79, "o")
    ∷ (80, "p")
    ∷ (81, "q")
    ∷ (82, "r")
    ∷ (83, "s")
    ∷ (84, "t")
    ∷ (85, "u")
    ∷ (86, "v")
    ∷ (87, "w")
    ∷ (88, "x")
    ∷ (89, "y")
    ∷ (90, "z")
    ∷ []

lower_in : List (ℕ × Char) → Char → Char
lower_in [] c = c
lower_in ((k, l) ∷ rest) c = if code c == k then l else lower_in rest c

-- strings.ToLower
unfoldable pub to_lower : String → String
unfolding lower_in
to_lower String.[] = ""
to_lower (String.◌∷◌ c s) = String.◌∷◌ (lower_in lower_letters c) (to_lower s)

-- strings.HasPrefix
unfoldable pub has_prefix : String → String → Bool
has_prefix s prefix = starts_with s prefix

trim_example : trim_space "  a b \n" ≡ "a b"
unfolding trim_space
trim_example = refl

lower_example : to_lower "SucCess-9" ≡ "success-9"
unfolding to_lower
lower_example = refl

pub str_ne : (s t : String) → s ≢ t → str_eq s t ≡ false
str_ne s t h = ground (arith, eq_iff s t)

pub str_refl : (s : String) → str_eq s s ≡ true
str_refl s = ground (arith, eq_iff s s)
