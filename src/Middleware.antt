-- ===== src/Middleware.antt =====
-- backend/internal/common/middleware: what stands before every handler.
pub mod RateLimit
