-- ===== src/Container.antt =====
-- A container file, and what format.rs does with one: its frames, and the prologue of unlock and
-- delete.
pub mod Stream
pub mod Authorize
pub mod Guard
pub mod Flags
pub mod Attempts
pub mod Foreign
pub mod Payload
pub mod Chunks
pub mod Extract
pub mod Whole
pub mod Restore
pub mod Whether
pub mod Restored
pub mod Verify
