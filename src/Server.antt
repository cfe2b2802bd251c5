-- ===== src/Server.antt =====
-- internal/server: the tool contract and the handlers behind it.
pub mod Types
pub mod Clip
pub mod Record
pub mod Review
pub mod Schema
pub mod Registration
pub mod Session
pub mod Docket
pub mod Middleware
