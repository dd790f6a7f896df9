-- ===== src/Examples.antt =====
-- Concrete inputs at which the theorems' hypotheses hold.
pub mod Forms
pub mod Requests
pub mod Pages
pub mod Groups
pub mod Access
pub mod Views
pub mod Dialogs
