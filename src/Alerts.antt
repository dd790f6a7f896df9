-- ===== src/Alerts.antt =====
-- pages/alerts.tsx: the dialog of an alert rule and the banner about the working time.
pub mod Rule
pub mod Banner
pub mod Rules
