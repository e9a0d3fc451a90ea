-- ===== src/KeyValue.antt =====
-- The key-value server of Z_my_work_mem.
pub mod Queue
pub mod Items
pub mod Receive
pub mod Send
pub mod Store
