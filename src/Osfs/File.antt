-- ===== src/Osfs/File.antt =====
-- lab4/file.c: reading and writing a regular file through its extent table, and the entry points
-- `osfs_read` and `osfs_write`.
--
-- `none` stands for a run that does not return: a `NULL` pointer is followed, or a loop has
-- used up its fuel. A loop moves at least one byte a round, so its fuel is the
-- number of bytes. Sizes and positions of 64 bits are plain numbers.
pub mod Read
pub mod Write
pub mod Content
pub mod Locate
pub mod Chunk
pub mod WriteLoop
pub mod WriteLaws
pub mod FreshLaws
pub mod ReadLoop
pub mod ReadLaws
use mathlib.Core.Option
use ncku_operating_system.Base.{
  ℕ, zero, suc, ◌+◌, ◌-◌, ◌*◌, ◌/◌, ◌%◌, Bool, true, false, ◌||◌, Option, none, some, List, [], ◌∷◌,
  ◌++◌, not, ltb, leb, ◌==◌, if◌then◌else◌, update, inc32, u32_mod, length, take, drop, min,
}
use ncku_operating_system.Osfs.Types.{
  Bytes, Errno, eio, einval, efault, enospc, eopnotsupp, Result, ok, err, OsfsInode, Inode, SbInfo,
  block_size, osfs_extent_magic, is_reg,
}
use ncku_operating_system.Osfs.Memory.{read_bytes}
use ncku_operating_system.Osfs.Alloc.{osfs_alloc_data_block}
use ncku_operating_system.Osfs.Extent.{
  header_magic, block_address, osfs_get_extent_header, osfs_extent_reset_header,
  osfs_extent_total_blocks, Hit, osfs_extent_lookup_block, osfs_extent_append_block,
  osfs_extent_ensure_table,
}

-- The user-space copies of the kernel, and its clock. Each copy returns the number of bytes that it
-- could not copy: `copy_from_user` also the data blocks after it.
pub record UserCopy : Type 0 where
  pub copy_from_user : Bytes → ℕ → List ℕ → ℕ × Bytes
  pub copy_to_user : ℕ → List ℕ → ℕ
  pub current_time : ℕ

-- `logical_block` and `block_offset` of a position.
abbrev pub logical_block : ℕ → ℕ
logical_block pos = pos / block_size % u32_mod

abbrev pub block_offset : ℕ → ℕ
block_offset pos = pos % block_size

-- What a read leaves: its result, which holds the bytes that have reached the user's buffer, the
-- file position and the file system.
pub record ReadResult : Type 0 where
  pub result : Result (List ℕ)
  pub ppos : ℕ
  pub sb : SbInfo

-- What a write leaves.
pub record WriteResult : Type 0 where
  pub result : Result ℕ
  pub ppos : ℕ
  pub sb : SbInfo
  pub inode : Inode
