-- ===== src/Tests.antt =====
-- Runs of the code at concrete inputs, with the theorems about them applied there.
pub mod Data
pub mod Times
mod Rows
mod Opening
mod Files
mod Tools
pub mod Settings
pub mod Machine
mod Launch
mod Sessions
pub mod Walks
mod Written
mod Registration
