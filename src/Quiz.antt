-- ===== src/Quiz.antt =====
-- backend/internal/quiz: attempts at published quizzes, and the drafts of scanned exams.
pub mod Model
pub mod Grading
pub mod Queries
pub mod Attempts
pub mod Submit
pub mod Listing
pub mod Editing
pub mod Saving
pub mod Publishing
pub mod Review
pub mod Drafts
