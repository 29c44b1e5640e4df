-- ===== src/Gradebook.antt =====
-- src/gradebook: writing a lesson up, the marks of a student, and how they are doing.
pub mod Progress
pub mod Journal
pub mod Marks
pub mod Standing
pub mod Removal
