-- ===== src/Pipeline.antt =====
-- packages/native-pipeline/src: a module for each of its files that is modelled.
pub mod Model
pub mod Json
pub mod Contracts
pub mod State
pub mod Sync
pub mod Events
pub mod Locks
pub mod Tree
pub mod Projects
pub mod Jobs
pub mod Rows
pub mod Durable
pub mod Lease
pub mod Stored
