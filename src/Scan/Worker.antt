-- ===== src/Scan/Worker.antt =====
-- backend/internal/scan/worker.go: the states of a scan job, from its claim to the stored quiz.
pub mod Model
pub mod Repository
pub mod Cache
pub mod Pages
pub mod Persist
pub mod Settle
pub mod Text
pub mod Vision
pub mod Process
pub mod AtRest
pub mod Stuck
