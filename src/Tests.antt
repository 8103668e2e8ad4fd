-- ===== src/Tests.antt =====
-- Runs of the definitions on concrete inputs, and the theorems at inputs where their hypotheses hold.
mod Data
mod Locks
mod Jobs
mod Durable
mod Folders
mod Lease
mod Listing
mod Projects
mod Others
