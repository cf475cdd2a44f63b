-- ===== src/Ai/Response/Valid.antt =====
-- What parseAndValidate lets through.
use study_mate.Prelude.{
  ℕ, suc, ◌≡◌, ◌≤◌, ◌<◌, refl, Bool, true, false, not, ◌&&◌, ◌||◌, ◌==◌, Option, none, some, List,
  [], ◌∷◌, length, ltb, is_blank, ap, ◌∙◌, All, arith, Bool-cases, inl, inr, subst,
}
use study_mate.Prelude.Integer.{ℤ, pos, negsuc}
use study_mate.Exec.{Result, ok, err, one_value}
use study_mate.Ai.Response.{
  QuestionType, RawQuestion, GeneratedQuestion, Error, min_options, max_options, type_of, index_in,
  index_or, question_with, typed_question, validate_raw_question, cons_question, some_left,
  validate_all, parse_and_validate,
}

-- an index that is known unless it may be unknown, and below the number of options
abbrev pub IsIndex : Bool → ℕ → Option ℕ → Type 0
IsIndex unknown_allowed n (some k) = k < n
IsIndex unknown_allowed n none = unknown_allowed ≡ true

pub record IsSound (unknown_allowed : Bool) (q : GeneratedQuestion) : Type 0 where
  pub text : is_blank q.text ≡ false
  pub enough : min_options q.question_type ≤ length q.options
  pub not_more : length q.options ≤ max_options q.question_type
  pub index : IsIndex unknown_allowed (length q.options) q.correct_index

index_or-IsIndex :
    (a : Bool) (n : ℕ) (i : Option ℤ) (k : Option ℕ)
    → index_or a (index_in n i) ≡ ok k
    → IsIndex a n k
index_or-IsIndex true n none none h = refl
index_or-IsIndex true n none (some k) h = ground (arith, h)
index_or-IsIndex false n none k h = ground (arith, h)
index_or-IsIndex true n (some (negsuc i)) none h = refl
index_or-IsIndex true n (some (negsuc i)) (some k) h = ground (arith, h)
index_or-IsIndex false n (some (negsuc i)) k h = ground (arith, h)
index_or-IsIndex true n (some (pos i)) none h = refl
index_or-IsIndex true n (some (pos i)) (some k) h = ground (arith, h)
index_or-IsIndex false n (some (pos i)) none h = ground (arith, h)
index_or-IsIndex false n (some (pos i)) (some k) h = ground (arith, h)

question_with-IsSound :
    (a : Bool) (q : RawQuestion) (t : QuestionType) (g : GeneratedQuestion)
    (r : Result Error (Option ℕ))
    → index_or a (index_in (length q.options) q.correct_index) ≡ r
    → is_blank q.text ≡ false
    → ltb (length q.options) (min_options t) || ltb (max_options t) (length q.options) ≡ false
    → question_with q t r ≡ ok g
    → IsSound a g
question_with-IsSound a q t g (err e) i text counted h = ground (arith, h)
question_with-IsSound a q t g (ok k) i text counted h =
    subst (IsSound a) (one_value (ok _) _ g refl h) (record {
      text = text;
      enough = ground (arith, counted);
      not_more = ground (arith, counted);
      index = index_or-IsIndex a (length q.options) q.correct_index k i;
    })

typed_question-IsSound :
    (a : Bool) (q : RawQuestion) (t : Option QuestionType) (g : GeneratedQuestion)
    → is_blank q.text ≡ false
    → typed_question a q t ≡ ok g
    → IsSound a g
typed_question-IsSound a q none g text h = ground (arith, h)
typed_question-IsSound a q (some t) g text h =
    elim (Bool-cases
      (ltb (length q.options) (min_options t) || ltb (max_options t) (length q.options))) [
        | inl wrong ↦ ground (arith, h, wrong)
        | inr counted ↦
            question_with-IsSound a q t g (index_or a (index_in (length q.options) q.correct_index))
              refl text counted (ground (arith, h, counted))
      ]

validate_raw_question-IsSound :
    (a : Bool) (q : RawQuestion) (g : GeneratedQuestion)
    → validate_raw_question a q ≡ ok g
    → IsSound a g
unfolding validate_raw_question
validate_raw_question-IsSound a q g h = elim (Bool-cases (is_blank q.text)) [
  | inl blank ↦ ground (arith, h, blank)
  | inr text ↦ typed_question-IsSound a q (type_of q.question_type) g text (ground (arith, h, text))
]

-- sound questions, one for each raw one unless some may be left out
abbrev AreSound : Bool → Bool → ℕ → List GeneratedQuestion → Type 0
AreSound flexible a n out = All (IsSound a) out × ((flexible ≡ false) → length out ≡ n)

cons_sound :
    (flexible a : Bool) (q : RawQuestion) (n : ℕ) (out : List GeneratedQuestion)
    (r : Result Error GeneratedQuestion) (rest : Result Error (List GeneratedQuestion))
    → validate_raw_question a q ≡ r
    → ((gs : List GeneratedQuestion) → rest ≡ ok gs → AreSound flexible a n gs)
    → cons_question flexible r rest ≡ ok out
    → AreSound flexible a (suc n) out
cons_sound flexible a q n out (ok g) (ok gs) first others h =
    let (sound, same) = others gs refl in
    subst (AreSound flexible a (suc n)) (one_value (ok (g ∷ gs)) (g ∷ gs) out refl h)
      ((validate_raw_question-IsSound a q g first, sound), λ f. ap suc (same f))
cons_sound flexible a q n out (ok g) (err e) first others h = ground (arith, h)
cons_sound true a q n out (err e) rest first others h = ((others out h).0, λ f. ground (arith, f))
cons_sound false a q n out (err e) rest first others h = ground (arith, h)

all_sound :
    (flexible a : Bool) (qs : List RawQuestion) (out : List GeneratedQuestion)
    → validate_all flexible a qs ≡ ok out
    → AreSound flexible a (length qs) out
unfolding validate_all
all_sound flexible a [] out h =
    subst (AreSound flexible a 0) (one_value (ok []) [] out refl h) (tt, λ _. refl)
all_sound flexible a (q ∷ qs) out h =
    cons_sound flexible a q (length qs) out (validate_raw_question a q) (validate_all flexible a qs)
      refl (all_sound flexible a qs) h

left_sound :
    (qs : List RawQuestion) (out : List GeneratedQuestion)
    (r : Result Error (List GeneratedQuestion))
    → some_left qs r ≡ ok out
    → (r ≡ ok out) × ((1 ≤ length qs) → 1 ≤ length out)
left_sound [] out (ok gs) h = (h, λ k. ground (arith, k))
left_sound [] out (err e) h = ground (arith, h)
left_sound (q ∷ qs) out (ok []) h = ground (arith, h)
left_sound (q ∷ qs) out (ok (g ∷ gs)) h =
    (h, λ _. subst (λ o. 1 ≤ length o) (one_value (ok (g ∷ gs)) (g ∷ gs) out refl h) (omega arith))
left_sound (q ∷ qs) out (err e) h = ground (arith, h)

counted_questions :
    (qs : List RawQuestion) (want : ℕ) (a : Bool) (out : List GeneratedQuestion)
    → parse_and_validate qs want a ≡ ok out
    → ((1 ≤ want) → length qs ≡ want) × (some_left qs (validate_all (want == 0) a qs) ≡ ok out)
unfolding parse_and_validate
counted_questions qs want a out h = elim (Bool-cases (not (want == 0) && not (length qs == want))) [
  | inl wrong ↦ ground (arith, h, wrong)
  | inr right ↦ (λ k. ground (arith, right, k), ground (arith, h, right))
]

-- Of the questions that parseAndValidate returns, each has a text, as many options as its type allows
-- and a correct index below their number, unless the index is unknown and may be; with a wanted
-- count, there are that many, and without one, at least one for a reply that has questions.
pub parse_and_validate-IsSound :
    (questions : List RawQuestion) (want : ℕ) (a : Bool) (out : List GeneratedQuestion)
    → parse_and_validate questions want a ≡ ok out
    → All (IsSound a) out
      × ((1 ≤ want) → length out ≡ want)
      × ((1 ≤ length questions) → 1 ≤ length out)
parse_and_validate-IsSound questions want a out h =
    let (counted, kept) = counted_questions questions want a out h in
    let (valid, some_kept) = left_sound questions out (validate_all (want == 0) a questions) kept in
    let (sound, same) = all_sound (want == 0) a questions out valid in
    (sound, λ k. same (ground (arith, k)) ∙ counted k, some_kept)
