-- ===== src/Projects.antt =====
-- pages/projects.tsx and components/project-dialog.tsx: the names listed, the versions of a project and
-- the dialog of a registered project.
pub mod Names
pub mod Versions
pub mod Dialog
pub mod Page
