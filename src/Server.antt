-- ===== src/Server.antt =====
-- What the servers in Z_my_work_atom and Z_my_work_mem have in common.
pub mod Clients
pub mod Connections
