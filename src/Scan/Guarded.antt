-- ===== src/Scan/Guarded.antt =====
-- Uploads that change nothing.
use study_mate.Prelude.{
  ℕ, ◌≡◌, String, Bool, true, Option, none, some, List, arith, any, any-find, ◌&&◌, ◌==◌,
}
use study_mate.Exec.{ok, IsError, World, call}
use study_mate.Scan.Model.{ScanPage, Store, Headers, is_uploaded}
use study_mate.Scan.Pages.{job_of, page_of, get_job_for_user, ensure_page, get_page, create_page}
use study_mate.Scan.Chunks.{ChunkRequest, parse_chunk_headers, handle_chunk_upload}
use study_mate.Scan.Complete.{UploadCompleteRequest, handle_upload_complete}
use study_mate.Prelude.Integer.{to_nat}

foreign_chunk_at :
    (md5_hex : List ℕ → String) (user_id : ℕ) (headers : Headers) (body : Option (List ℕ))
    (r : ChunkRequest) (s : Store) (fs : List Bool)
    → parse_chunk_headers headers ≡ ok r
    → job_of s r.job_id user_id ≡ none
    → let a =
        handle_chunk_upload md5_hex user_id headers body (record { store = s; faults = fs }) in
      IsError a.0 × (a.1.store ≡ s)
unfolding handle_chunk_upload get_job_for_user call
foreign_chunk_at md5_hex user_id headers body r s fs parsed none_found =
    rw parsed (ground (arith, none_found))

foreign_complete_at :
    (uuid : String) (user_id : ℕ) (r : UploadCompleteRequest) (s : Store) (fs : List Bool)
    → job_of s (to_nat r.job_id) user_id ≡ none
    → let a = handle_upload_complete uuid user_id r (record { store = s; faults = fs }) in
      IsError a.0 × (a.1.store ≡ s)
unfolding handle_upload_complete get_job_for_user call
foreign_complete_at uuid user_id r s fs none_found = ground (arith, none_found)

uploaded_at :
    (md5_hex : List ℕ → String) (user_id : ℕ) (headers : Headers) (body : Option (List ℕ))
    (r : ChunkRequest) (p : ScanPage) (s : Store) (fs : List Bool)
    → parse_chunk_headers headers ≡ ok r
    → page_of s r.job_id r.page_no ≡ some p
    → any (λ q. q.scan_job_id == r.job_id && q.page_no == r.page_no) s.pages ≡ true
    → is_uploaded p.upload_status ≡ true
    → let a =
        handle_chunk_upload md5_hex user_id headers body (record { store = s; faults = fs }) in
      IsError a.0 × (a.1.store ≡ s)
unfolding handle_chunk_upload get_job_for_user ensure_page get_page create_page call
uploaded_at md5_hex user_id headers body r p s fs parsed found known up =
    rw parsed (ground (arith, found, known, up))

-- Requests for a job that the user does not have end in an error and change nothing, whatever calls
-- fail: a chunk for it is not stored, and its pages are not composed.
foreign_upload :
    (md5_hex : List ℕ → String) (uuid : String) (user_id : ℕ) (headers : Headers)
    (body : Option (List ℕ)) (c : ChunkRequest) (r : UploadCompleteRequest) (w : World Store)
    → parse_chunk_headers headers ≡ ok c
    → job_of w.store c.job_id user_id ≡ none
    → job_of w.store (to_nat r.job_id) user_id ≡ none
    → (IsError (handle_chunk_upload md5_hex user_id headers body w).0
        × ((handle_chunk_upload md5_hex user_id headers body w).1.store ≡ w.store))
      × IsError (handle_upload_complete uuid user_id r w).0
      × ((handle_upload_complete uuid user_id r w).1.store ≡ w.store)
foreign_upload md5_hex uuid user_id headers body c r w parsed h k =
    let f = foreign_chunk_at md5_hex user_id headers body c w.store w.faults parsed h in
    let g = foreign_complete_at uuid user_id r w.store w.faults k in (f, g.0, g.1)

-- A chunk for a page that is uploaded already is refused, whoever sends it and whatever calls fail,
-- and changes neither the page nor the stored objects.
pub uploaded_page_kept :
    (md5_hex : List ℕ → String) (user_id : ℕ) (headers : Headers) (body : Option (List ℕ))
    (c : ChunkRequest) (p : ScanPage) (w : World Store)
    → parse_chunk_headers headers ≡ ok c
    → page_of w.store c.job_id c.page_no ≡ some p
    → is_uploaded p.upload_status ≡ true
    → IsError (handle_chunk_upload md5_hex user_id headers body w).0
      × ((handle_chunk_upload md5_hex user_id headers body w).1.store ≡ w.store)
uploaded_page_kept md5_hex user_id headers body c p w parsed found up =
    uploaded_at md5_hex user_id headers body c p w.store w.faults parsed found
      (any-find (λ q. q.scan_job_id == c.job_id && q.page_no == c.page_no) w.store.pages p found) up
