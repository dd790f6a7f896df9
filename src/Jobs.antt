-- ===== src/Jobs.antt =====
-- frontend/src/pages/jobs.tsx: the Jobs page's filters, pills, actions and durations.
pub mod Filter
pub mod Params
pub mod Runtime
pub mod Actions
pub mod Table
pub mod Pager
