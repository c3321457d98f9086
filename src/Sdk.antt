-- ===== src/Sdk.antt =====
-- What the modules of x/ take from their libraries: error values, amounts, collections, the bank
-- and address codecs. Each library is a record of operations with the laws that the code relies on.
pub mod Outcome
pub mod Amounts
pub mod Collections
pub mod Bank
pub mod Address
pub mod Json
pub mod Gateway
