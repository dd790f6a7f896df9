-- ===== src/Log.antt =====
-- pages/log.tsx: the lines of a log, their colors, and the panel of a job's statistics.
pub mod Line
pub mod Colored
pub mod Panel
pub mod Page
