-- ===== src/Tests.antt =====
-- Concrete libraries, and the theorems at inputs that meet their hypotheses.
mod Goldilocks
mod Model
mod Chain
mod Runs
mod Settlements
mod Texts
mod Disks
mod Sites
mod Docs
mod Setups
mod Smokes
mod Calls
mod Bridges
mod Interleavings
mod Handovers
mod Sessions
mod Ledgers
mod Disclosures
mod Notaries
mod Worlds
mod Guarded
