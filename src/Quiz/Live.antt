-- ===== src/Quiz/Live.antt =====
-- services/quiz/internal/live: sessions that a host leads and players answer, and their scores.
pub mod Leaderboard
pub mod Scores
pub mod Sessions
pub mod Questions
pub mod Answers
mod Examples
