-- ===== src/Upgrade.antt =====
-- The upgrade client of Z_my_work_upgrade/test_client.c.
pub mod Bits
pub mod Crc
pub mod Header
pub mod Transfer
