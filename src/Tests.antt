-- ===== src/Tests.antt =====
-- Runs of the modelled code on small inputs, and the theorems at inputs that meet their
-- hypotheses.
pub mod Addresses
pub mod Strategies
pub mod Keys
pub mod Configs
pub mod Agents
pub mod Dropped
pub mod Units
pub mod Loops
pub mod Heard
pub mod Bans
pub mod Timers
