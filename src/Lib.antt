-- ===== src/Lib.antt =====
-- Verification library of a buffer pool with a disk manager, an ARC replacer and a B+tree.
--
-- The program keeps pages of 8192 bytes in one file. The disk manager maps page ids to offsets of
-- that file. The disk scheduler is a thread that serves requests for the disk in the order sent.
-- The buffer pool manager keeps pages in frames of memory, asks the scheduler to read and write
-- them, and asks the ARC replacer which frame to give up. Guards pin a frame while they live; they
-- share the frames, the replacer and the scheduler with the pool. The B+tree stores its nodes in
-- pages.
--
-- Which file models which part:
--   Common     src/common.rs: the constants
--   Disk       src/disk_manager.rs: `DiskManager`, with `std::fs::File` in Disk/FileIo
--   Arc        src/arc_replacer.rs: `ArcReplacer`
--   Scheduler  src/disk_scheduler.rs: `DiskScheduler` and its worker thread
--   Frame      src/frame_header.rs: `FrameHeader`
--   Guard      src/guard.rs: `ReadPageGuard` and `WritePageGuard`
--   Pool       src/buffer_pool.rs: `BufferPoolManager`
--   BTree      src/b_plus_tree.rs: `LeafNode` (BTree/Leaf), `InternalNode` (BTree/Internal),
--              `BTree` with `new`, `find_leaf` and `find` (BTree/Tree), `Scan` (BTree/Scan), the
--              changes of one node in `insert` (BTree/Nodes), and `insert` itself (BTree/Insert:
--              the way down in Descent, the way up in Growth)
--   Base       shared lemmas on tests, lists and association lists
--   Tests      runs on concrete states
-- The children of a part are named for what they prove.
--
-- A pool is calm (Pool/Calm) if it has a frame for every page that was made, so that it never
-- evicts: then no request panics, and a tree can be changed safely. In a pool that evicts, a page
-- may leave its frame under the write guards that `insert` keeps, since eviction does not look at
-- the pins.
--
-- A method that changes its object is a function from the state to the new state. A panic is
-- `none`, or `panic` of `DiskResult` where an `io::Error` is told apart from it. Numbers are
-- natural numbers; where the source's arithmetic on `u32` or `u64` may overflow the model panics or
-- wraps as the source does. The system calls of one request may fail: an `Io` says which of them
-- do, and `faults n` is the `Io` of the n-th request. A hash map is an association list, and the
-- order of its iteration is that of the list. A client of the scheduler waits for its answer
-- before it goes on (`ask`), which is one run of the queue and the worker.
--
-- A binary search runs on fuel, one more than the entries of the node; the theorems on it show
-- that this is enough. The walk to a leaf, and the way down of `insert`, take their fuel as an
-- argument, one for each page of the path; an insert into a root that is a leaf needs none. A loop
-- over a scan takes one more than the leaves that it sees. All other loops are structural. The
-- clock is read once in a call: only the timestamps of the replacer hold it, and nothing reads
-- them. `sort_unstable_by_key` leaves the order of equal keys open, and is a stable sort here.
--
-- Not modelled: src/main.rs, which has no logic; how `BTree::new` opens its file, which is given as
-- opened or not; the locks, since every method holds the pool's latch from its start to its end,
-- and a lock on a page's bytes is given back within one call. Only `insert` asks for a page while
-- it holds the bytes of another: there a request that is given the locked frame does not return.
mod Base
pub mod Common
pub mod Disk
pub mod Arc
pub mod Scheduler
pub mod Frame
pub mod Guard
pub mod Pool
pub mod BTree
pub mod Tests
