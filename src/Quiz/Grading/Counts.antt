-- ===== src/Quiz/Grading/Counts.antt =====
-- The scoring loop against an independent description of it.
use study_mate.Prelude.{
  ℕ, suc, ◌+◌, ◌≡◌, refl, ◌∙◌, ap, Bool, true, false, Option, none, some, List, [], ◌∷◌, ◌++◌, map,
  ◌==◌, if◌then◌else◌, length, arith,
}
use mathlib.Core.List.{append_assoc, append-nil}
use study_mate.Quiz.Model.{Answer}
use study_mate.Quiz.Grading.{
  GradedRow, Tally, selected_by_question, verdict, chosen, add_verdict, grade_question, grade_from,
  no_marks, grade,
}

-- the choice in the last answer to a question, read from the first answer on
abbrev pub last_choice : Option ℕ → List Answer → ℕ → Option ℕ
last_choice so_far [] q = so_far
last_choice so_far (a ∷ rest) q =
    last_choice (if a.question_id == q then a.selected_option_id else so_far) rest q

abbrev pub is_key : ℕ → Option ℕ → Bool
is_key s none = false
is_key s (some k) = s == k

-- no choice is skipped, and a choice is right if it is the correct option
abbrev pub deserved : Option ℕ → Option ℕ → Option Bool
deserved none key = none
deserved (some s) key = some (is_key s key)

-- the row that a question deserves, whatever came before it
unfoldable pub graded : List Answer → ℕ × Option ℕ → GradedRow
graded answers (q, key) =
    let choice = last_choice none answers q in
    record { question_id = q; selected = choice; is_correct = deserved choice key }

verdict-deserved :
    (given : Option (Option ℕ)) (key : Option ℕ) → verdict given key ≡ deserved (chosen given) key
unfolding verdict
verdict-deserved none key = refl
verdict-deserved (some none) key = refl
verdict-deserved (some (some s)) none = refl
verdict-deserved (some (some s)) (some k) = refl

chosen_or : Option (Option ℕ) → Option ℕ → Option ℕ
chosen_or none earlier = earlier
chosen_or (some s) earlier = s

last_choice-selected :
    (so_far : Option ℕ) (answers : List Answer) (q : ℕ)
    → last_choice so_far answers q ≡ chosen_or (selected_by_question answers q) so_far
unfolding selected_by_question chosen_or
last_choice-selected so_far [] q = refl
last_choice-selected so_far (a ∷ rest) q = ground (
  arith,
  last_choice-selected (if a.question_id == q then a.selected_option_id else so_far) rest q,
)

chosen-last :
    (answers : List Answer) (q : ℕ)
    → chosen (selected_by_question answers q) ≡ last_choice none answers q
unfolding chosen_or
chosen-last answers q = ground (arith, last_choice-selected none answers q)

-- what the loop stores for a question
code_row : List Answer → ℕ × Option ℕ → GradedRow
code_row answers (q, key) =
    let given = selected_by_question answers q in
    record { question_id = q; selected = chosen given; is_correct = verdict given key }

code_row-graded : (answers : List Answer) (k : ℕ × Option ℕ) → code_row answers k ≡ graded answers k
unfolding code_row graded
code_row-graded answers (q, key) =
    rw (verdict-deserved (selected_by_question answers q) key, chosen-last answers q) refl

abbrev pub is_right : Option Bool → ℕ
is_right (some true) = 1
is_right _ = 0

abbrev pub is_wrong : Option Bool → ℕ
is_wrong (some false) = 1
is_wrong _ = 0

abbrev pub is_skipped : Option Bool → ℕ
is_skipped none = 1
is_skipped _ = 0

-- how many rows a mark fits
unfoldable pub marks : (Option Bool → ℕ) → List GradedRow → ℕ
marks f [] = 0
marks f (r ∷ rs) = f r.is_correct + marks f rs

-- the tally that the rows of `key` add to `t`
abbrev tally_of : Tally → List GradedRow → Tally
tally_of t rs = record {
  correct = t.correct + marks is_right rs;
  wrong = t.wrong + marks is_wrong rs;
  skipped = t.skipped + marks is_skipped rs;
  rows = t.rows ++ rs;
}

add_row :
    (mark : Option Bool) (r : GradedRow) (t : Tally) (rs : List GradedRow)
    → r.is_correct ≡ mark
    → tally_of (add_verdict mark r t) rs ≡ tally_of t (r ∷ rs)
unfolding marks
add_row none r t rs h = ground (arith, h, append_assoc t.rows (r ∷ []) rs)
add_row (some true) r t rs h = ground (arith, h, append_assoc t.rows (r ∷ []) rs)
add_row (some false) r t rs h = ground (arith, h, append_assoc t.rows (r ∷ []) rs)

grade_from-eq :
    (answers : List Answer) (key : List (ℕ × Option ℕ)) (t : Tally)
    → grade_from answers key t ≡ tally_of t (map (graded answers) key)
unfolding grade_from marks grade_question code_row
grade_from-eq answers [] t = ground (arith, append-nil t.rows)
grade_from-eq answers ((q, k) ∷ rest) t =
    grade_from-eq answers rest (grade_question answers (q, k) t)
    ∙ add_row (verdict (selected_by_question answers q) k) (code_row answers (q, k)) t
        (map (graded answers) rest) refl
    ∙ ap (λ r. tally_of t (r ∷ map (graded answers) rest)) (code_row-graded answers (q, k))

one_mark : (m : Option Bool) → is_right m + is_wrong m + is_skipped m ≡ 1
one_mark none = refl
one_mark (some true) = refl
one_mark (some false) = refl

marks_partition :
    (rs : List GradedRow) → marks is_right rs + marks is_wrong rs + marks is_skipped rs ≡ length rs
unfolding marks
marks_partition [] = refl
marks_partition (r ∷ rs) = omega (arith, marks_partition rs, one_mark r.is_correct)

length-graded :
    (answers : List Answer) (key : List (ℕ × Option ℕ))
    → length (map (graded answers) key) ≡ length key
length-graded answers [] = refl
length-graded answers (k ∷ rest) = ap suc (length-graded answers rest)

-- The loop stores one row for each question, in the quiz's order, each with the mark that the
-- question's answer deserves, and its three counts are the numbers of rows marked correct, wrong and
-- skipped.
pub grade_lem :
    (answers : List Answer) (key : List (ℕ × Option ℕ))
    → ((grade answers key).rows ≡ map (graded answers) key)
      × ((grade answers key).correct ≡ marks is_right (map (graded answers) key))
      × ((grade answers key).wrong ≡ marks is_wrong (map (graded answers) key))
      × ((grade answers key).skipped ≡ marks is_skipped (map (graded answers) key))
unfolding grade
grade_lem answers key =
    let e = grade_from-eq answers key no_marks in
    (
      ap (λ (t : Tally). t.rows) e,
      ap (λ (t : Tally). t.correct) e ∙ omega arith,
      ap (λ (t : Tally). t.wrong) e ∙ omega arith,
      ap (λ (t : Tally). t.skipped) e ∙ omega arith,
    )

-- Every question is counted once: the three counts add up to the number of questions.
pub grade_total :
    (answers : List Answer) (key : List (ℕ × Option ℕ))
    → (grade answers key).correct + (grade answers key).wrong + (grade answers key).skipped
      ≡ length key
grade_total answers key =
    let e = grade_lem answers key in
    omega
      (arith, e.1, e.2, e.3, marks_partition (map (graded answers) key), length-graded answers key)
