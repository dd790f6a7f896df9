-- ===== src/Shared.antt =====
-- The small shared parts: frontend/src/lib/utils.ts, datetime.ts and node-context.tsx, and
-- frontend/src/components/node-multi-select.tsx and confirm-dialog.tsx.
pub mod Reason
pub mod Dates
pub mod NodeContext
pub mod NodeSelect
pub mod Confirm
