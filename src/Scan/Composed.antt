-- ===== src/Scan/Composed.antt =====
-- The page that HandleUploadComplete composes, when no call fails.
use study_mate.Prelude.{
  ℕ, suc, ◌≡◌, refl, String, true, not, none, some, List, [], ◌∷◌, ◌++◌, arith, select, update,
  ◌==◌, leb, length, ==_refl, ap, sym,
}
use study_mate.Exec.{ok, IsOk, World, call}
use study_mate.Scan.Model.{
  PageChunkMetadata, final_key, ScanJob, ScanPage, Store, uploaded, max_page_upload_size,
  has_chunk_prefix,
}
use study_mate.Scan.Pages.{
  chunk_of, get_chunk, put_object, delete_chunks, mark_page_uploaded, all_pages_uploaded,
  set_pending,
}
use study_mate.Scan.Chunks.{decode_chunk_metadata, with_total}
use study_mate.Scan.Complete.{
  compose_chunks, compose_page, finish_page, has_all, sort_ints, image_extension,
}

abbrev calm : Store → World Store
calm s = record { store = s; faults = [] }

-- the stored chunks from `i` on
abbrev pub Stored : Store → ℕ → ℕ → ℕ → List (List ℕ) → Type 0
Stored s job page i [] = Unit
Stored s job page i (part ∷ rest) =
    (chunk_of s job page i ≡ some part) × Stored s job page (suc i) rest

-- end to end
abbrev pub concat : List (List ℕ) → List ℕ
concat [] = []
concat (part ∷ rest) = part ++ concat rest

compose_chunks-nil :
    (job page i : ℕ) (s : Store) (parts : List (List ℕ))
    → Stored s job page i parts
    → compose_chunks job page i (length parts) (calm s) ≡ (ok (concat parts), calm s)
unfolding compose_chunks get_chunk call
compose_chunks-nil job page i s [] h = refl
compose_chunks-nil job page i s (part ∷ rest) h =
    rw (h.0, compose_chunks-nil job page (suc i) s rest h.1) refl

select_all : {A : Type 0} (xs : List A) → select (λ x. true) xs ≡ xs
select_all [] = refl
select_all (x ∷ xs) = ap (◌∷◌ x) (select_all xs)

finish_page-nil :
    (job : ScanJob) (s : Store)
    → let r = finish_page job (calm s) in
      IsOk r.0 × (r.1.store.objects ≡ s.objects) × (r.1.store.pages ≡ s.pages)
unfolding finish_page all_pages_uploaded set_pending call
finish_page-nil job s = ground arith

abbrev pub shown_metadata : ℕ → ScanPage → PageChunkMetadata
shown_metadata total p = with_total total (decode_chunk_metadata p.chunk_metadata)

-- With every chunk of a page received and stored, an accepted image type and size, and no failing
-- call, HandleUploadComplete succeeds: the new object is the chunks in the order of their numbers, end
-- to end, the chunks are gone, and the page is uploaded under the new object's key.
pub compose_page_lem :
    (uuid extension : String) (total : ℕ) (job : ScanJob) (p : ScanPage) (s : Store)
    (parts : List (List ℕ))
    → (shown_metadata total p).total_chunks ≡ total
    → length parts ≡ total
    → leb total (length (shown_metadata total p).received) ≡ true
    → has_all 0 total (sort_ints (shown_metadata total p).received) ≡ true
    → Stored s job.id p.page_no 0 parts
    → leb (length (concat parts)) max_page_upload_size ≡ true
    → image_extension (concat parts) ≡ ok extension
    → let r = compose_page uuid total job p (calm s) in
      let key = final_key job.id p.page_no uuid extension in
      IsOk r.0
      × (r.1.store.objects
          ≡ (key, concat parts)
            ∷ select (λ o. not (has_chunk_prefix job.id p.page_no o.0)) s.objects)
      × (r.1.store.pages
          ≡ update
              (λ q. q.id == p.id)
              (λ q. record q {
                temp_storage_key = some key;
                upload_status = uploaded;
                chunk_metadata = none;
              })
              s.pages)
unfolding compose_page put_object delete_chunks mark_page_uploaded call
compose_page_lem uuid extension total job p s parts t n e a st l x =
    rw
      (
        t,
        ==_refl,
        e,
        a,
        sym n,
        compose_chunks-nil job.id p.page_no 0 s parts st,
        l,
        x,
        select_all s.objects,
      )
      (finish_page-nil job (record s {
        pages =
            update (λ q. q.id == p.id)
              (λ q. record q {
                temp_storage_key = some (final_key job.id p.page_no uuid extension);
                upload_status = uploaded;
                chunk_metadata = none;
              })
              s.pages;
        objects =
            (final_key job.id p.page_no uuid extension, concat parts)
            ∷ select (λ o. not (has_chunk_prefix job.id p.page_no o.0)) s.objects;
      }))
