-- ===== src/Prompts.antt =====
-- The texts that are sent to the model: backend/app/prompts.
pub mod Lines
pub mod BlogPost
pub mod LinkedInPost
pub mod Email
pub mod AdCopy
pub mod Improver
