-- ===== src/Ae.antt =====
-- The event loop of ae/ae.c.
pub mod Backends
pub mod Loop
pub mod Mask
pub mod Create
pub mod Files
pub mod Signals
pub mod Timers
