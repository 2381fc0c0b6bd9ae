-- ===== src/Tests.antt =====
-- Runs on concrete data, and the theorems at concrete inputs.
mod World
mod Auth
mod RateLimit
mod Content
mod CurrentUser
mod Middleware
mod Images
mod Export
mod Routes
mod Renderers
mod Schemas
mod Generation
mod Improver
mod BrandVoices
mod Pipeline
mod Seed
mod Providers
mod Config
