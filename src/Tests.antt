-- ===== src/Tests.antt =====
-- Concrete libraries and the theorems at concrete inputs.
pub mod Stores
pub mod Money
pub mod Ledger
pub mod Burns
pub mod Validators
pub mod Cli
mod Launch
mod Exports
mod Blocks
mod Simulated
mod Takeovers
mod Chains
mod Delivered
pub mod Mux
mod Routes
pub mod Disk
mod Nodes
mod Setup
pub mod Modules
