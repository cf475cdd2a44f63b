-- ===== src/Scan.antt =====
-- backend/internal/scan: the upload of scanned pages in chunks.
pub mod Worker
pub mod Model
pub mod Pages
pub mod Chunks
pub mod Complete
pub mod Guarded
pub mod Interleaved
pub mod Received
pub mod Composed
