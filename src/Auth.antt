-- ===== src/Auth.antt =====
-- packages/auth: bearer tokens, their roles and their revocation.
pub mod Tokens
pub mod Revocation
mod Tests
