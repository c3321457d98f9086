-- ===== src/Simulation.antt =====
-- x/burn/simulation, stakingSimWrap of app/app.go, and x/validator/simulation: what the simulator makes up.
pub mod Params
pub mod Register
pub mod Burns
pub mod Staking
