-- ===== src/Content.antt =====
-- The content pieces: backend/app/repositories/content_repository.py, services/content_service.py and
-- export_service.py, and the routes of api/v1/routers/content.py.
pub mod Repository
pub mod Service
pub mod Export
pub mod Routes
