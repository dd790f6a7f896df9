-- ===== src/Frame.antt =====
-- What stands around the pages: frontend/src/components/app-sidebar.tsx, topbar.tsx, user-menu.tsx,
-- search-command.tsx and project-combobox.tsx, and the routes and the gate of frontend/src/App.tsx.
pub mod Nav
pub mod Routes
pub mod Password
pub mod UserMenu
pub mod Search
pub mod ProjectBox
