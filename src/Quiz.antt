-- ===== src/Quiz.antt =====
-- services/quiz: the questions of a quiz, and live sessions.
pub mod Shuffle
pub mod Engine
pub mod Marking
pub mod Live
mod Examples
