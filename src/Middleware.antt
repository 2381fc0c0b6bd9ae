-- ===== src/Middleware.antt =====
-- backend/app/middleware: the guards that look at the headers of a request, and the headers that
-- every answer gets.
pub mod Scopes
pub mod Csrf
pub mod RequestId
pub mod SecurityHeaders
