-- ===== src/Recovery.antt =====
-- The recovery code of recovery.rs: its printed form and the sealing of the data key to it.
pub mod Base32
pub mod Quintets
pub mod Regroup
pub mod Code
pub mod Typing
pub mod Unseal
pub mod Seal
