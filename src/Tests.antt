-- ===== src/Tests.antt =====
-- Concrete runs: the theorems at inputs that exercise the code, with their hypotheses met.
mod Clients
mod Connections
mod Dictionary
mod Disk
mod Files
mod KeyValue
mod Loop
mod Net
mod Queues
mod Receive
mod Signals
mod SkipList
mod Timers
