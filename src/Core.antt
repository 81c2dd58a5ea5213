-- ===== src/Core.antt =====
-- The package core: the version-agnostic engine.
pub mod Types
pub mod Status
pub mod Float
pub mod Naming
pub mod Page
pub mod Limits
pub mod Retry
pub mod Queue
pub mod Validate
pub mod Engine
pub mod Dispatch
pub mod Runtime
pub mod Book
pub mod Oidc
