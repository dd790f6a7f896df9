-- ===== src/Api.antt =====
-- frontend/src/lib/api.ts: the records that the backend sends, the fetch helpers, and one request
-- for each method of `api`.
pub mod Types
pub mod Helpers
pub mod Calls
pub mod Segments
