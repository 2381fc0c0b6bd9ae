-- ===== src/BrandVoices.antt =====
-- The brand voices of a user, and the block of a prompt that one becomes.
pub mod Repository
pub mod Block
pub mod Routes
