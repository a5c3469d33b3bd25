-- ===== src/Study.antt =====
-- services/study/internal: the protected quiz, in which the server keeps the solutions.
pub mod Model
pub mod Html
pub mod Items
pub mod Pages
pub mod Answers
pub mod View
pub mod Play
pub mod Secrets
pub mod Progress
pub mod Store
pub mod Start
pub mod Runs
mod Examples
