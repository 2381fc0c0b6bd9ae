-- ===== src/Improver.antt =====
-- The improver: backend/app/repositories/improvement_repository.py, services/improver_service.py and
-- api/v1/routers/improve.py.
pub mod Repository
pub mod Service
pub mod Routes
