-- ===== src/Emulator.antt =====
-- The package emulator: the services of the protocol buffers over the engine.
pub mod Conv
pub mod V2
pub mod V2Beta3
