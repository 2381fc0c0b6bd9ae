-- ===== src/Providers.antt =====
-- backend/app/providers: what the services call models by.
pub mod Retry
pub mod Chat
pub mod Mock
pub mod ImageClient
pub mod Factory
