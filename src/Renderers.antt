-- ===== src/Renderers.antt =====
-- The canonical text of a result: backend/app/services/renderers.
pub mod Words
pub mod Tags
pub mod Layouts
pub mod AdCopy
