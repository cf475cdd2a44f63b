-- ===== src/Auth/Validation/Common.antt =====
-- The table commonPasswords of backend/internal/auth/validator.go.
use study_mate.Prelude.{String, Bool, List, [], ◌∷◌, any, str_eq}

abbrev common_passwords : List String
common_passwords =
    "password" ∷ "password1" ∷ "password12" ∷ "password123" ∷ "password1234" ∷ "123456" ∷ "1234567"
    ∷ "12345678" ∷ "123456789" ∷ "1234567890" ∷ "qwerty" ∷ "qwerty123" ∷ "qwertyuiop" ∷ "abc123"
    ∷ "111111" ∷ "123123" ∷ "12345" ∷ "1234" ∷ "000000" ∷ "654321" ∷ "666666" ∷ "696969" ∷ "7777777"
    ∷ "888888" ∷ "999999" ∷ "iloveyou" ∷ "admin" ∷ "admin123" ∷ "letmein" ∷ "welcome" ∷ "welcome1"
    ∷ "monkey" ∷ "dragon" ∷ "master" ∷ "login" ∷ "princess" ∷ "football" ∷ "shadow" ∷ "sunshine"
    ∷ "superman" ∷ "michael" ∷ "jennifer" ∷ "trustno1" ∷ "batman" ∷ "access" ∷ "hello" ∷ "charlie"
    ∷ "donald" ∷ "mustang" ∷ "baseball" ∷ "starwars" ∷ "whatever" ∷ "freedom" ∷ "passw0rd"
    ∷ "qazwsx" ∷ "zaq12wsx" ∷ "asdfgh" ∷ "ashley" ∷ "bailey" ∷ "pass" ∷ "test" ∷ "test123" ∷ "guest"
    ∷ "root" ∷ "toor" ∷ "changeme" ∷ "secret" ∷ "default" ∷ "computer" ∷ "internet" ∷ "cookie"
    ∷ "pepper" ∷ "ginger" ∷ "jordan" ∷ "hunter" ∷ "ranger" ∷ "buster" ∷ "thomas" ∷ "robert"
    ∷ "daniel" ∷ "matthew" ∷ "andrew" ∷ "joshua" ∷ "summer" ∷ "winter" ∷ "spring" ∷ "autumn"
    ∷ "flower" ∷ "cheese" ∷ "coffee" ∷ "orange" ∷ "apple" ∷ "banana" ∷ "purple" ∷ "yellow"
    ∷ "silver" ∷ "golden" ∷ "soccer" ∷ "hockey" ∷ "tennis" ∷ "guitar" ∷ "music" ∷ "killer"
    ∷ "matrix" ∷ "ninja" ∷ []

-- isCommonPassword
unfoldable pub is_common_password : String → Bool
is_common_password password = any (λ p. str_eq p password) common_passwords
