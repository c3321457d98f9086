-- ===== src/App.antt =====
-- app: what the application puts together, the order of its modules, and how it exports its state.
pub mod Export
pub mod Blocks
pub mod Chain
pub mod Accounts
pub mod Wires
pub mod Setup
pub mod Gateway
