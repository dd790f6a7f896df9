-- ===== src/Schedule.antt =====
-- frontend/src/pages/schedule.tsx: the Run Spider page, its validation, its initial values, its
-- submission, the cards of the form, and the summary beside it.
pub mod Validate
pub mod Prefill
pub mod Run
pub mod Summary
pub mod Page
pub mod Cron
pub mod When
pub mod Cards
