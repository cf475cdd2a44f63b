-- ===== src/Practice/Sets.antt =====
-- Lists of questions without repetition, and the steps of a selection that keep them so
-- (backend/internal/careergoals/adaptive/selector.go).
use study_mate.Prelude.{
  ℕ, zero, suc, ◌+◌, ◌≤◌, ◌≡◌, refl, ◌∙◌, Bool, true, false, ◌||◌, List, [], ◌∷◌, ◌++◌, ◌==◌, leb,
  any, take, select, length, sort_by, insert_by, any-sort_by, any-insert_by, any-take,
  if◌then◌else◌, arith,
}
use study_mate.Practice.Model.{Question}
use study_mate.Practice.Selector.{has_question}

unfoldable pub NoDup : List Question → Type 0
NoDup [] = Unit
NoDup (q ∷ qs) = (has_question qs q.id ≡ false) × NoDup qs

module _ {A : Type 0} where
  pub any-select : (p q : A → Bool) (xs : List A) → any p xs ≡ false → any p (select q xs) ≡ false
  any-select p q [] h = refl
  any-select p q (x ∷ xs) h = ground (arith, any-select p q xs)

  -- what a selection holds passes its test
  pub any_not-select :
      (p q : A → Bool) (xs : List A)
      → ((x : A) → q x ≡ true → p x ≡ false)
      → any p (select q xs) ≡ false
  any_not-select p q [] k = refl
  any_not-select p q (x ∷ xs) k = ground (arith, k x, any_not-select p q xs k)

  pub any-append : (p : A → Bool) (xs ys : List A) → any p (xs ++ ys) ≡ (any p xs || any p ys)
  any-append p [] ys = refl
  any-append p (x ∷ xs) ys = ground (arith, any-append p xs ys)

  pub any_left :
      (p q : A → Bool) (xs : List A) → any (λ x. p x || q x) xs ≡ false → any p xs ≡ false
  any_left p q [] h = refl
  any_left p q (x ∷ xs) h = ground (arith, h, any_left p q xs)

  pub any_right :
      (p q : A → Bool) (xs : List A) → any (λ x. p x || q x) xs ≡ false → any q xs ≡ false
  any_right p q [] h = refl
  any_right p q (x ∷ xs) h = ground (arith, h, any_right p q xs)

  pub length-take : (n : ℕ) (xs : List A) → length (take n xs) ≤ n
  length-take zero xs = ground arith
  length-take (suc n) [] = ground arith
  length-take (suc n) (x ∷ xs) = ground (arith, length-take n xs)

  pub length-append : (xs ys : List A) → length (xs ++ ys) ≡ length xs + length ys
  length-append [] ys = ground arith
  length-append (x ∷ xs) ys = ground (arith, length-append xs ys)

pub select-NoDup : (p : Question → Bool) (qs : List Question) → NoDup qs → NoDup (select p qs)
unfolding NoDup
select-NoDup p [] h = tt
select-NoDup p (q ∷ qs) h =
    choose (select p qs) (p q) (any-select (λ r. r.id == q.id) p qs h.0) (select-NoDup p qs h.1)
  where
    choose :
        (rest : List Question) (b : Bool)
        → has_question rest q.id ≡ false
        → NoDup rest
        → NoDup (if b then q ∷ rest else rest)
    choose rest true new ok = (new, ok)
    choose rest false new ok = ok

insert_by-NoDup :
    (key : Question → ℕ) (q : Question) (qs : List Question)
    → has_question qs q.id ≡ false
    → NoDup qs
    → NoDup (insert_by key q qs)
unfolding NoDup insert_by
insert_by-NoDup key q [] new h = (refl, tt)
insert_by-NoDup key q (r ∷ qs) new h =
    choose (leb (key q) (key r)) (insert_by-NoDup key q qs (ground (arith, new)) h.1)
  where
    choose :
        (b : Bool)
        → NoDup (insert_by key q qs)
        → NoDup (if b then q ∷ r ∷ qs else r ∷ insert_by key q qs)
    choose true ok = (new, h)
    choose false ok = (any-insert_by (λ x. x.id == r.id) key q qs ∙ ground (arith, new, h.0), ok)

pub sort_by-NoDup : (key : Question → ℕ) (qs : List Question) → NoDup qs → NoDup (sort_by key qs)
unfolding NoDup sort_by
sort_by-NoDup key [] h = tt
sort_by-NoDup key (q ∷ qs) h =
    insert_by-NoDup key q (sort_by key qs) (any-sort_by (λ x. x.id == q.id) key qs ∙ h.0)
      (sort_by-NoDup key qs h.1)

take-NoDup : (n : ℕ) (qs : List Question) → NoDup qs → NoDup (take n qs)
unfolding NoDup
take-NoDup zero qs h = tt
take-NoDup (suc n) [] h = tt
take-NoDup (suc n) (q ∷ qs) h = (any-take (λ x. x.id == q.id) n qs h.0, take-NoDup n qs h.1)

-- the equality of numbers is symmetric
same_id : (q : Question) (ys : List Question) → any (λ y. q.id == y.id) ys ≡ has_question ys q.id
same_id q [] = refl
same_id q (y ∷ ys) = ground (arith, same_id q ys)

pub append-NoDup :
    (xs ys : List Question)
    → NoDup xs
    → NoDup ys
    → any (λ y. has_question xs y.id) ys ≡ false
    → NoDup (xs ++ ys)
unfolding NoDup
append-NoDup [] ys h k apart = k
append-NoDup (x ∷ xs) ys h k apart = (
  any-append (λ y. y.id == x.id) xs ys
      ∙ ground (
        arith,
        h.0,
        same_id x ys,
        any_left (λ y. x.id == y.id) (λ y. has_question xs y.id) ys apart,
      ),
  append-NoDup xs ys h.1 k (any_right (λ y. x.id == y.id) (λ y. has_question xs y.id) ys apart),
)

-- a selection in some order, cut
pub drawn-NoDup :
    (key : Question → ℕ) (n : ℕ) (p : Question → Bool) (qs : List Question)
    → NoDup qs
    → NoDup (take n (sort_by key (select p qs)))
drawn-NoDup key n p qs h =
    take-NoDup n (sort_by key (select p qs)) (sort_by-NoDup key (select p qs) (select-NoDup p qs h))

pub any_not-drawn :
    (key : Question → ℕ) (n : ℕ) (p t : Question → Bool) (qs : List Question)
    → ((q : Question) → t q ≡ true → p q ≡ false)
    → any p (take n (sort_by key (select t qs))) ≡ false
any_not-drawn key n p t qs k =
    any-take p n (sort_by key (select t qs))
      (any-sort_by p key (select t qs) ∙ any_not-select p t qs k)

pub arranged-NoDup :
    (key : Question → ℕ) (n : ℕ) (qs : List Question) → NoDup qs → NoDup (take n (sort_by key qs))
arranged-NoDup key n qs h = take-NoDup n (sort_by key qs) (sort_by-NoDup key qs h)

pub any_not-arranged :
    (key : Question → ℕ) (n : ℕ) (p : Question → Bool) (qs : List Question)
    → any p qs ≡ false
    → any p (take n (sort_by key qs)) ≡ false
any_not-arranged key n p qs h = any-take p n (sort_by key qs) (any-sort_by p key qs ∙ h)
