-- ===== src/Auth.antt =====
-- Accounts, sessions and refresh-token rotation.
pub mod Security
pub mod Users
pub mod Tokens
pub mod Service
pub mod CurrentUser
pub mod Routes
pub mod Bodies
