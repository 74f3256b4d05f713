-- ===== src/Tests.antt =====
-- Concrete runs of the buffer pool's parts.
pub mod Disk
pub mod Arc
pub mod Scheduler
pub mod Pool
pub mod Guard
pub mod BTree
pub mod ArcRuns
pub mod Tree
pub mod Nodes
pub mod FourFrames
pub mod Insert
pub mod TwoLevels
