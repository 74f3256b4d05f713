-- ===== src/BTree.antt =====
-- src/b_plus_tree.rs: the nodes of the B+tree, as pages of bytes and as sorted entries.
pub mod Key
pub mod Bytes
pub mod Leaf
pub mod Sorted
pub mod Internal
pub mod Tree
pub mod Nodes
pub mod Insert
pub mod Scan
