-- ===== src/Cmd.antt =====
-- cmd/monod/cmd: the command line of the node.
pub mod Text
pub mod ChainId
pub mod NetworkId
pub mod Testnet
pub mod Decimal
pub mod Paths
pub mod MultiNode
pub mod ExportCmd
pub mod Root
