-- ===== src/Js.antt =====
-- What the front end uses of JavaScript's standard library: numbers in decimal, string methods,
-- `JSON.stringify` and `encodeURIComponent`, over text as a list of UTF-16 code units.
pub mod Decimal
pub mod Strings
pub mod Json
pub mod Uri
pub mod View
pub mod Query
pub mod Trim
pub mod Trimmed
