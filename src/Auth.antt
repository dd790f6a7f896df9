-- ===== src/Auth.antt =====
-- frontend/src/pages/login.tsx and tokens.tsx: signing in, the first account, and the tokens of the API.
pub mod Login
pub mod Tokens
