-- ===== src/Spam.antt =====
-- common/spamScore.js: the content score of an anonymous submission, and what follows from it.
pub mod Links
pub mod Shape
pub mod Normal
pub mod Score
pub mod Weights
mod Tests
