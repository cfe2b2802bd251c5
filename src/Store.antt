-- ===== src/Store.antt =====
-- internal/store: the data of an observation, and the parts of the package.
pub mod Types
pub mod Clock
pub mod Id
pub mod Filter
pub mod Key
pub mod Tally
pub mod Sqlite
pub mod Append
pub mod Listing
pub mod Permissions
pub mod Schema
pub mod Opening
pub mod Closing
pub mod Location
pub mod Open
pub mod Snapshot
