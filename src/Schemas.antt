-- ===== src/Schemas.antt =====
-- What JSON becomes on the way in and out: backend/app/schemas.
pub mod Values
pub mod BlogPost
pub mod LinkedInPost
pub mod Email
pub mod AdCopy
pub mod Content
pub mod Improvement
