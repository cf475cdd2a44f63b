-- ===== src/Quiz/Drafts/Validated.antt =====
-- What validateDraftInput lets through.
use study_mate.Prelude.{
  ℕ, suc, ◌≡◌, ◌≢◌, ◌≤◌, ◌<◌, refl, false, Option, none, some, List, [], ◌∷◌, ltb, str_eq, length,
  trim_space, is_blank, All, arith, eq_iff, ap, ◌||◌, subst, Bool-cases, inl, inr,
}
use study_mate.Prelude.Integer.{ℤ, pos, negsuc}
use study_mate.Exec.{Result, ok, err}
use study_mate.Quiz.Model.{AnswerStatus, set, unknown, Error}
use study_mate.Quiz.Drafts.{
  OptionInput, QuestionInput, NormalizedQuestion, option_bounds, kept_options, answer_index,
  normalize, normalized_within, normalized, cons_result, normalize_all, validate_draft_input,
  status_of,
}

-- the answer of a question with `n` options: a missing one is marked, a present one is an option
abbrev pub HasAnswerFor : ℕ → AnswerStatus → Option ℕ → Type 0
HasAnswerFor n st none = st ≡ unknown
HasAnswerFor n st (some i) = (st ≡ set) × (i < n)

pub record IsPersistable (q : NormalizedQuestion) : Type 0 where
  pub has_text : q.text ≢ ""
  pub filled : All (λ (o : OptionInput). o.text ≢ "") q.options
  pub counted :
      (lo : ℕ) × (hi : ℕ) × (option_bounds q.question_type ≡ some (lo, hi))
      × (lo ≤ length q.options)
      × (length q.options ≤ hi)
  pub answered : HasAnswerFor (length q.options) q.answer_status q.correct_index

kept_filled :
    (n : ℕ) (os : List OptionInput) → All (λ (o : OptionInput). o.text ≢ "") (kept_options n os)
unfolding kept_options is_blank
kept_filled n [] = tt
kept_filled n (o ∷ os) = elim (Bool-cases (str_eq (trim_space o.text) "")) [
  | inl e ↦ rw e (kept_filled n os)
  | inr e ↦ rw e (ground (arith, eq_iff (trim_space o.text) ""), kept_filled (suc n) os)
]

answer_index-HasAnswerFor :
    (i : ℤ) (n : ℕ) → HasAnswerFor n (status_of (answer_index i n)) (answer_index i n)
unfolding answer_index
answer_index-HasAnswerFor (pos i) n = elim (Bool-cases (ltb i n)) [
  | inl e ↦ rw e (refl, ground (arith, e))
  | inr e ↦ rw e refl
]
answer_index-HasAnswerFor (negsuc i) n = refl

-- what holds of the value of a result, if it has one
abbrev IfOk : {A : Type 0} → (A → Type 0) → Result Error A → Type 0
IfOk P (ok a) = P a
IfOk P (err e) = Unit

module _ (q : QuestionInput) (opts : List OptionInput) where
  normalized_within-IsPersistable :
      (bounds : Option (ℕ × ℕ))
      → is_blank q.text ≡ false
      → All (λ (o : OptionInput). o.text ≢ "") opts
      → option_bounds (trim_space q.question_type) ≡ bounds
      → IfOk IsPersistable (normalized_within q opts bounds)
  unfolding normalized_within normalized is_blank
  normalized_within-IsPersistable none blank filled b = tt
  normalized_within-IsPersistable (some (lo, hi)) blank filled b =
      elim (Bool-cases (ltb (length opts) lo || ltb hi (length opts))) [
        | inl e ↦ rw e tt
        | inr e ↦ rw e (record {
          has_text = ground (arith, blank, eq_iff (trim_space q.text) "");
          filled = filled;
          counted = (lo, hi, b, ground (arith, e), ground (arith, e));
          answered = answer_index-HasAnswerFor q.correct_index (length opts);
        })
      ]

normalize-IsPersistable : (q : QuestionInput) → IfOk IsPersistable (normalize q)
unfolding normalize
normalize-IsPersistable q = elim (Bool-cases (is_blank q.text)) [
  | inl e ↦ rw e tt
  | inr e ↦ rw e (
      normalized_within-IsPersistable q (kept_options 0 q.options)
        (option_bounds (trim_space q.question_type)) e (kept_filled 0 q.options) refl)
]

abbrev AllOf : List QuestionInput → List NormalizedQuestion → Type 0
AllOf qs ns = (length ns ≡ length qs) × All IsPersistable ns

cons_result-AllOf :
    (q : QuestionInput) (qs : List QuestionInput) (r : Result Error NormalizedQuestion)
    (rs : Result Error (List NormalizedQuestion))
    → IfOk IsPersistable r
    → IfOk (AllOf qs) rs
    → IfOk (AllOf (q ∷ qs)) (cons_result r rs)
cons_result-AllOf q qs (err e) rs h k = tt
cons_result-AllOf q qs (ok n) (err e) h k = tt
cons_result-AllOf q qs (ok n) (ok ns) h k = (ap suc k.0, (h, k.1))

normalize_all-AllOf : (qs : List QuestionInput) → IfOk (AllOf qs) (normalize_all qs)
unfolding normalize_all
normalize_all-AllOf [] = (refl, tt)
normalize_all-AllOf (q ∷ qs) =
    cons_result-AllOf q qs (normalize q) (normalize_all qs) (normalize-IsPersistable q)
      (normalize_all-AllOf qs)

-- Every question that validateDraftInput lets through has a text, a known type with as many options
-- as that type takes, each of them with a text, and either an answer among its options or the mark
-- that it has none; it lets a draft through as a whole, one question for each that was sent, and
-- never an empty one.
pub validate_draft_input-IsPersistable :
    (qs : List QuestionInput) (ns : List NormalizedQuestion)
    → validate_draft_input qs ≡ ok ns
    → (qs ≢ []) × (length ns ≡ length qs) × All IsPersistable ns
unfolding validate_draft_input
validate_draft_input-IsPersistable [] ns h = ground (arith, h)
validate_draft_input-IsPersistable (q ∷ qs) ns h =
    let k = subst (λ r. IfOk (AllOf (q ∷ qs)) r) h (normalize_all-AllOf (q ∷ qs)) in
    (ground arith, k.0, k.1)
