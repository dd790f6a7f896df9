-- ===== src/Code.antt =====
-- pages/code.tsx: the tree of a deployed egg's files, and the page that selects and opens them.
pub mod Tree
pub mod Page
pub mod View
