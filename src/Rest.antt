-- ===== src/Rest.antt =====
-- The package rest: REST requests onto the methods of a gRPC service.
pub mod Status
pub mod Names
pub mod Template
pub mod Route
pub mod Parsing
pub mod Splitting
pub mod Matching
pub mod Matched
pub mod Registry
pub mod Registered
pub mod Serve
pub mod Fields
