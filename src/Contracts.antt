-- ===== src/Contracts.antt =====
-- The contracts of crates/contracts: their states and actions.
pub mod Hyllar
pub mod Amm
pub mod Hydentity
pub mod Staking
mod Tests
mod StakingTests
mod IdentityTests
