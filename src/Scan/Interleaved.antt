-- ===== src/Scan/Interleaved.antt =====
-- Two chunks of one page whose requests overlap: both read the page before either writes it back.
use study_mate.Prelude.{
  ℕ, ◌*◌, ◌≡◌, ◌≢◌, refl, String, Bool, true, false, not, ◌&&◌, ◌||◌, some, List, [], ◌∷◌, ◌++◌,
  arith, any, find, find-update, update, select, leb, ltb, length, ◌==◌, ==_refl, ==_iff, ◌∙◌,
}
use study_mate.Exec.{IsOk, World, call}
use study_mate.Scan.Model.{
  PageChunkMetadata, ScanPage, Store, chunk_size_bytes, max_page_upload_size, in_transfer,
  chunk_object_key, same_chunk,
}
use study_mate.Scan.Pages.{put_object, update_page_chunk_metadata}
use study_mate.Scan.Chunks.{
  ChunkRequest, decode_chunk_metadata, with_total, chunk_already_received, record_chunk_receipt,
  fold_eq, receive_chunk,
}

abbrev calm : Store → World Store
calm s = record { store = s; faults = [] }

abbrev metadata_for : ChunkRequest → ScanPage → PageChunkMetadata
metadata_for r p = with_total r.total_chunks (decode_chunk_metadata p.chunk_metadata)

-- a chunk that the handler accepts for the page as it was read
pub record IsAcceptable (md5_hex : List ℕ → String) (r : ChunkRequest) (bytes : List ℕ)
    (p : ScanPage) : Type 0 where
  pub same_total : (metadata_for r p).total_chunks == r.total_chunks ≡ true
  pub fresh : chunk_already_received (metadata_for r p) r.chunk_index ≡ false
  pub small : leb (length bytes) chunk_size_bytes ≡ true
  pub fits :
      r.chunk_index == 0 && ltb max_page_upload_size (r.total_chunks * chunk_size_bytes) ≡ false
  pub digest : fold_eq (md5_hex bytes) r.checksum ≡ true

-- what one accepted chunk stores
unfoldable pub with_chunk : ChunkRequest → List ℕ → ScanPage → Store → Store
with_chunk r bytes p s = record s {
  objects =
      (chunk_object_key r.job_id r.page_no r.chunk_index, bytes)
      ∷ select (λ o. not (same_chunk r.job_id r.page_no r.chunk_index o.0)) s.objects;
  pages =
      update (λ q. q.id == p.id)
        (λ q. record q {
          chunk_metadata = some (record_chunk_receipt (metadata_for r p) r.chunk_index r.checksum);
          upload_status = in_transfer;
        })
        s.pages;
}

module _ (md5_hex : List ℕ → String) (p : ScanPage) where
  receive_chunk-nil :
      (r : ChunkRequest) (bytes : List ℕ) (s : Store)
      → IsAcceptable md5_hex r bytes p
      → let a = receive_chunk md5_hex r (some bytes) p (calm s) in
        IsOk a.0 × (a.1 ≡ calm (with_chunk r bytes p s))
  unfolding receive_chunk put_object update_page_chunk_metadata with_chunk call
  receive_chunk-nil r bytes s a = rw (a.same_total, a.fresh, a.small, a.fits, a.digest) (tt, refl)

any-append : (f : ℕ → Bool) (xs ys : List ℕ) → any f (xs ++ ys) ≡ (any f xs || any f ys)
any-append f [] ys = refl
any-append f (x ∷ xs) ys = ground (arith, any-append f xs ys)

received_for : (total : ℕ) (m : PageChunkMetadata) → (with_total total m).received ≡ m.received
unfolding with_total
received_for total m = ground arith

-- a chunk that is not among those of the page is not among them after another one
still_missing :
    (r q : ChunkRequest) (p : ScanPage)
    → q.chunk_index ≢ r.chunk_index
    → chunk_already_received (metadata_for r p) r.chunk_index ≡ false
    → chunk_already_received (metadata_for q p) q.chunk_index ≡ false
    → chunk_already_received
        (record_chunk_receipt (metadata_for q p) q.chunk_index q.checksum)
        r.chunk_index
      ≡ false
unfolding chunk_already_received record_chunk_receipt
still_missing r q p other fresh late =
    let m = decode_chunk_metadata p.chunk_metadata in
    ground (
      arith,
      any-append (λ i. i == r.chunk_index) (metadata_for q p).received (q.chunk_index ∷ []),
      received_for r.total_chunks m,
      received_for q.total_chunks m,
      late,
      fresh,
      ==_iff q.chunk_index r.chunk_index,
    )

written :
    (r : ChunkRequest) (bytes : List ℕ) (p t : ScanPage) (s : Store)
    → find (λ q. q.id == p.id) s.pages ≡ some t
    → t.id ≡ p.id
    → find (λ q. q.id == p.id) (with_chunk r bytes p s).pages
      ≡ some (record t {
        chunk_metadata = some (record_chunk_receipt (metadata_for r p) r.chunk_index r.checksum);
        upload_status = in_transfer;
      })
unfolding with_chunk
written r bytes p t s found own =
    find-update (λ q. q.id == p.id) (λ q. q.id == p.id) _ s.pages t (λ y. refl) found
    ∙ rw (own, ==_refl) refl

-- If the requests of two different chunks both read the page before either writes it back, both are
-- answered as received, but the page no longer holds the receipt of the first, whose bytes are stored:
-- the page's metadata are replaced as a whole.
pub lost_receipt :
    (md5_hex : List ℕ → String) (p : ScanPage) (r q : ChunkRequest) (b c : List ℕ) (s : Store)
    → find (λ x. x.id == p.id) s.pages ≡ some p
    → q.chunk_index ≢ r.chunk_index
    → IsAcceptable md5_hex r b p
    → IsAcceptable md5_hex q c p
    → let first = receive_chunk md5_hex r (some b) p (calm s) in
      let second = receive_chunk md5_hex q (some c) p first.1 in
      IsOk first.0
      × IsOk second.0
      × (t : ScanPage) × (find (λ x. x.id == p.id) second.1.store.pages ≡ some t)
      × (chunk_already_received (decode_chunk_metadata t.chunk_metadata) r.chunk_index ≡ false)
unfolding decode_chunk_metadata
lost_receipt md5_hex p r q b c s found other ra qa =
    let one = receive_chunk-nil md5_hex p r b s ra in
    let two = receive_chunk-nil md5_hex p q c (with_chunk r b p s) qa in
    let t = written r b p p s found refl in
    rw (one.1, two.1)
      (
        one.0,
        two.0,
        _,
        written q c p _ (with_chunk r b p s) t refl,
        still_missing r q p other ra.fresh qa.fresh,
      )
