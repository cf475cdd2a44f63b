-- ===== src/Scan/Worker/Pages/Words.antt =====
-- normalizeText (backend/internal/scan/service.go): strings.Fields, joined by single blanks, in lower case.
use Prim.Native.String.{◌++◌ as join}
use Prim.Native.Char.{Char}
use study_mate.Prelude.{String, List, [], ◌∷◌, str_eq, is_blank, if◌then◌else◌}

-- a word taken off the front, and the rest
abbrev end_word : String → List String → List String
end_word word rest = if str_eq word "" then rest else word ∷ rest

abbrev one_char : Char → String
one_char c = String.◌∷◌ c ""

-- `word` is the word that ends here
fields_from : String → String → List String
fields_from word String.[] = end_word word []
fields_from word (String.◌∷◌ c s) =
    let ended = fields_from "" s in
    let longer = fields_from (join word (one_char c)) s in
    if is_blank (one_char c) then end_word word ended else longer

join_words : List String → String
join_words [] = ""
join_words (w ∷ []) = w
join_words (w ∷ v ∷ rest) = let others = join_words (v ∷ rest) in join w (join " " others)

unfoldable pub normalize_text : (String → String) → String → String
unfolding fields_from join_words
normalize_text lower raw = lower (join_words (fields_from "" raw))
