-- ===== src/Scan/Received.antt =====
-- The search for a missing chunk.
use study_mate.Prelude.{
  ℕ, zero, suc, ◌+◌, ◌≡◌, ◌≤◌, ◌<◌, refl, ◌∙◌, sym, ap, Bool, true, ◌||◌, List, [], ◌∷◌, ◌==◌, any,
  arith, Bool-cases, inl, inr,
}
use study_mate.Scan.Model.{PageChunkMetadata}
use study_mate.Scan.Chunks.{chunk_already_received}
use study_mate.Scan.Complete.{insert_int, sort_ints, has_all}

any-insert_int : (p : ℕ → Bool) (n : ℕ) (xs : List ℕ) → any p (insert_int n xs) ≡ (p n || any p xs)
unfolding insert_int
any-insert_int p n [] = refl
any-insert_int p n (m ∷ xs) = ground (arith, any-insert_int p n xs)

any-sort_ints : (p : ℕ → Bool) (xs : List ℕ) → any p (sort_ints xs) ≡ any p xs
unfolding sort_ints
any-sort_ints p [] = refl
any-sort_ints p (x ∷ xs) =
    any-insert_int p x (sort_ints xs) ∙ ap (λ b. p x || b) (any-sort_ints p xs)

any-has_all :
    (i n : ℕ) (xs : List ℕ) (k : ℕ)
    → has_all i n xs ≡ true
    → i ≤ k
    → k < i + n
    → any (λ x. x == k) xs ≡ true
unfolding has_all
any-has_all i zero xs k h a b = absurd (omega (arith, a, b))
any-has_all i (suc n) [] k h a b = ground arith
any-has_all i (suc n) (x ∷ xs) k h a b = elim (Bool-cases (x == k)) [
  | inl e ↦ rw e refl
  | inr e ↦ ground (arith, any-has_all (suc i) n xs k, h, e)
]

-- When the search of HandleUploadComplete finds no gap in the sorted numbers of the received chunks,
-- every chunk number below the total was received, in whatever order the chunks came.
has_all-sort_ints :
    (meta : PageChunkMetadata) (total k : ℕ)
    → has_all 0 total (sort_ints meta.received) ≡ true
    → k < total
    → chunk_already_received meta k ≡ true
unfolding chunk_already_received
has_all-sort_ints meta total k h b =
    sym (any-sort_ints (λ x. x == k) meta.received)
    ∙ any-has_all 0 total (sort_ints meta.received) k h (omega arith) (omega (arith, b))
