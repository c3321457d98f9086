-- ===== src/Lib.antt =====
-- The mono chain: an application of the Cosmos SDK with an EVM, whose own modules burn coins
-- (x/burn) and sell the place of a validator for a burn (x/validator).
--
-- x/burn takes a share of the fees at the start of each block and burns it, before x/mint and
-- x/distribution see the fees, and it burns what an account asks for. It keeps a count of the burns,
-- a global total, and a total for each account. x/validator creates a validator for an account that
-- burns the amount that the parameters ask for, and calls x/burn and x/staking for that. The
-- application shuts the two other ways to a new validator after the genesis block: the staking
-- precompile gets a message server that refuses, and the message router a circuit breaker. The
-- command line reads the EVM chain id out of the chain identifier.
--
-- Files and what they model:
--   Prelude        helpers: tests on native numbers, bytes and strings, integers, lists
--   Sdk            the parts of the SDK that the modules call, as interfaces with laws: math and
--                  coins (Amounts), collections (Collections), x/bank (Bank), address codecs
--                  (Address); errors and the monad of methods on a store (Outcome)
--   Burn.Types     x/burn/types: params.go, genesis.go, msgs.go, keys.go and the structs of *.pb.go
--   Burn.Keeper    x/burn/keeper: keeper.go, burn.go, fee_burn.go
--   Burn.Server    x/burn/keeper: msg_server.go, grpc_query.go; x/burn/abci.go
--   Burn.Genesis   x/burn/keeper/genesis.go; Start: the state that genesis leaves
--   Burn.Growth, .Chain   what one operation does to the totals, and sequences of messages and
--                  blocks, as x/burn sees them; Solvent and Serves: why no burn lacks room
--   Validator.Types, .Keeper, .Server, .Ante   x/validator/types, x/validator/keeper,
--                  x/validator/ante/staking_restriction.go
--   Validator.Gate, .History, .Wiring   what app/app.go puts together: the two guards, the life of
--                  the validator set, and x/burn as the burn keeper of x/validator
--   App.Blocks     app/app.go, app/genesis.go: the orders of the modules and the ABCI methods
--   App.Chain      both modules in one application: what happens on a chain (Chain), as each of them
--                  sees it (Refines), what x/burn has recorded of it (Paid), and when a registration
--                  goes through (Joins)
--   App.Wires      the middle of `New` in app/app.go: the keepers (Make) and the modules (Modules),
--                  and what they are given
--   App.Setup      the end of `New` in app/app.go, app/ante.go, app/mempool.go
--   Burn.Module, Validator.Module   x/burn/module.go, x/validator/module.go: the genesis as JSON
--                  (Sdk.Json), and what the modules register
--   App.Gateway, Burn.Gateway, Validator.Gateway   RegisterAPIRoutes of app/app.go, docs/docs.go, and
--                  x/burn/types/query.pb.gw.go and x/validator/types/query.pb.gw.go: the routes of the
--                  queries over HTTP, on a gateway (Sdk.Gateway) that is an interface; Routes and Served say
--                  which query answers, Reported what is reported of a chain
--   App.Export     app/export.go: the exported state, and the preparation for height zero
--   App.Accounts   app/config.go, app/genesis_account.go
--   Cmd.ChainId, .NetworkId   cmd/monod/cmd: chain_id.go, mono_config.go, and setNetworkIDFlag of
--                  commands.go, over texts as lists of code points (Cmd.Text)
--   Cmd.Root       what the root command runs before each command (cmd/monod/cmd/root.go), the
--                  configuration of InitAppConfig, and `monod init`; Init has the theorem
--   Cmd.ExportCmd  appExport of cmd/monod/cmd/commands.go
--   Cmd.Testnet    cmd/monod/cmd/testnet.go: the takeover of a chain by one validator
--   Cmd.MultiNode  cmd/monod/cmd/testnet_multi_node.go: the arguments (Args), the loop over the nodes
--                  (Setup), the helpers on files (Files), the two passes over the genesis files
--                  (Genesis) and the whole command (Run), over path/filepath (Cmd.Paths) and
--                  strconv.Itoa (Cmd.Decimal); the theorems are in Ports, Listeners, Canonical,
--                  Supply, Names, Copies and Built
--   Simulation     x/burn/simulation, x/validator/simulation, and stakingSimWrap of app/app.go
--   Tests          stores, a bank and codecs in memory, and runs on them
--
-- State. The collections of a keeper and the state of the bank are the fields of a `Ctx`; a method
-- is a function from a state to a result and a state, and what a method wrote before it failed
-- stays written, since only the transaction around it is rolled back. A Go function `Keeper.FooBar`
-- is `foo_bar`, over the record of what `NewKeeper` is given. A panic is an error of its own. The
-- export runs over the stores of x/staking and x/slashing as maps under their store keys; a loop
-- over a store visits the entries that were there when the iterator was opened. In App.Wires a keeper
-- is what its constructor is given, since nothing else of it shows in `New`: a keeper that is given
-- by value is the one of that time, and one that is given by pointer the one of the end.
--
-- Numbers. `math.Int` and `math.LegacyDec` are nil or a whole number, a decimal in units of
-- 10^-18; the library panics where a sum or a product leaves its range, which the laws of `Math`
-- say. In a store and in JSON nil is written as zero (`written_amount`, `written_dec`). Heights
-- and counts are natural numbers; a chain id is compared with 2^64 as `IsUint64` does. Every loop
-- is a recursion on a list or on the number of rounds that are left, so no fuel is needed, but for
-- the digits of a numeral: there `n + 1` rounds are enough for `n`, since each divides by ten.
--
-- Not modelled: the generated code of the protobuf messages but for their structs and the clients of
-- queries; the keepers of the SDK and of cosmos/evm, x/genutil and the keyring, which are interfaces;
-- the encoding configuration and the options of baseapp in `New`, the registration of flags
-- and commands, JSON but for what is read back of it, telemetry, and the consensus
-- parameters of an export.
pub mod Prelude
pub mod Sdk
pub mod Burn
pub mod Validator
pub mod Cmd
pub mod App
pub mod Simulation
mod Tests
