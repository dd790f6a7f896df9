-- ===== src/Groups.antt =====
-- frontend/src/pages/group.tsx: the builder of saved job groups, and its dialogs.
pub mod Form
pub mod Page
pub mod Dialogs
pub mod View
pub mod Run
