-- ===== src/Osfs.antt =====
-- lab4: a memory-based file system kernel module.
pub mod Types
pub mod Memory
pub mod Alloc
pub mod Extent
pub mod File
pub mod Inodes
pub mod Dir
pub mod Super
mod Examples
