-- ===== src/Burn.antt =====
-- The x/burn module: its messages and genesis (x/burn/types), its keeper and servers
-- (x/burn/keeper), its begin blocker (x/burn/abci.go), and what is proved of them.
pub mod Types
pub mod Keeper
pub mod Server
pub mod Genesis
pub mod Totals
pub mod Solvent
pub mod Growth
pub mod Chain
pub mod Serves
pub mod Module
pub mod Gateway
