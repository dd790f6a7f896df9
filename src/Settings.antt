-- ===== src/Settings.antt =====
-- pages/settings.tsx: unsaved changes and their errors, the tabs, the controls and the servers.
pub mod Draft
pub mod Tabs
pub mod Controls
pub mod Servers
pub mod ListInput
pub mod Fields
pub mod Page
