-- ===== src/Images.antt =====
-- Images of content pieces: the prompt, the rows, and the pipeline that makes one.
pub mod Prompt
pub mod Repository
pub mod Storage
pub mod Service
