-- ===== src/Validator.antt =====
-- The x/validator module: parameters and messages (x/validator/types), the keeper and its servers
-- (x/validator/keeper), and the two guards on direct validator creation (x/validator/ante).
pub mod Types
pub mod Keeper
pub mod Server
pub mod Gateway
pub mod Ante
pub mod Gate
pub mod History
pub mod Wiring
pub mod Module
