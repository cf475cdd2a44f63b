-- ===== src/Practice.antt =====
-- backend/internal/careergoals/adaptive: which questions a student practises.
pub mod Model
pub mod Queries
pub mod Selector
pub mod Sets
pub mod Returned
pub mod Selected
pub mod Served
pub mod Shares
