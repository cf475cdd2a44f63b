-- ===== src/Ai.antt =====
-- backend/internal/quiz/ai: what the scan pipeline decides around its calls of a language model.
pub mod Detect
pub mod Mix
pub mod Response
pub mod RateLimit
