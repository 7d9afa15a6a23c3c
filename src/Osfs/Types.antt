-- ===== src/Osfs/Types.antt =====
-- lab4/osfs.h: the constants and structures of the file system, and the error numbers it returns.
use ncku_operating_system.Base.{ℕ, ◌-◌, ◌/◌, ◌%◌, ◌==◌, Bool, Option}

-- `BLOCK_SIZE` of the kernel's <linux/fs.h>, `1 << BLOCK_SIZE_BITS`: osfs.h has its own definition
-- of it commented out.
abbrev pub block_size : ℕ
block_size = 1024

abbrev pub max_inodes : ℕ
max_inodes = 20

abbrev pub data_block_count : ℕ
data_block_count = 20

abbrev pub max_filename_len : ℕ
max_filename_len = 255

-- `sizeof(struct osfs_dir_entry)`: 255 characters, one byte of padding, a `uint32_t`.
abbrev pub dir_entry_size : ℕ
dir_entry_size = 260

-- `offsetof(struct osfs_dir_entry, inode_no)`.
abbrev pub inode_no_offset : ℕ
inode_no_offset = 256

abbrev pub max_dir_entries : ℕ
max_dir_entries = block_size / dir_entry_size

abbrev pub root_inode : ℕ
root_inode = 1

abbrev pub osfs_magic : ℕ
osfs_magic = 0x051AB520

abbrev pub osfs_extent_magic : ℕ
osfs_extent_magic = 0x4F534558

-- A header and an extent are two `uint32_t` each.
abbrev pub extent_header_size : ℕ
extent_header_size = 8

abbrev pub extent_size : ℕ
extent_size = 8

abbrev pub osfs_max_extents : ℕ
osfs_max_extents = (block_size - extent_header_size) / extent_size

-- The error numbers, for the negative results of the C functions.
pub data Errno : Type 0 where
  einval enospc enomem eio eexist enoent enametoolong efault eopnotsupp : Errno

-- `0` or a value on success; a negative number, or `ERR_PTR` of one, on failure.
pub data Result {ℓ} (A : Type ℓ) : Type ℓ where
  ok : A → Result A
  err : Errno → Result A

-- `struct osfs_inode`; a `timespec64` is one number.
pub record OsfsInode : Type 0 where
  pub i_ino : ℕ
  pub i_size : ℕ
  pub i_blocks : ℕ
  pub i_mode : ℕ
  pub i_links_count : ℕ
  pub i_uid : ℕ
  pub i_gid : ℕ
  pub i_atime : ℕ
  pub i_mtime : ℕ
  pub i_ctime : ℕ
  pub i_block : ℕ

-- `memset(osfs_inode, 0, sizeof(*osfs_inode))`.
abbrev pub zero_inode : OsfsInode
zero_inode = record {
  i_ino = 0;
  i_size = 0;
  i_blocks = 0;
  i_mode = 0;
  i_links_count = 0;
  i_uid = 0;
  i_gid = 0;
  i_atime = 0;
  i_mtime = 0;
  i_ctime = 0;
  i_block = 0;
}

-- The data blocks, as bytes at offsets from `data_blocks`.
abbrev pub Bytes : Type 0
Bytes = ℕ → ℕ

-- `struct osfs_sb_info` with the memory that its pointers lead to: the bitmaps by bit number, the
-- inode table by inode number, the data blocks by byte.
pub record SbInfo : Type 0 where
  pub magic : ℕ
  pub sb_block_size : ℕ
  pub inode_count : ℕ
  pub block_count : ℕ
  pub nr_free_inodes : ℕ
  pub nr_free_blocks : ℕ
  pub inode_bitmap : ℕ → Bool
  pub block_bitmap : ℕ → Bool
  pub inode_table : ℕ → OsfsInode
  pub data_blocks : Bytes

-- The tables of operations that `i_op` and `i_fop` are set to together.
pub data Operations : Type 0 where
  dir_operations file_operations no_operations : Operations

-- The members of the VFS `struct inode` that the module sets or reads. `i_private` points into the
-- inode table: it is the index of the entry, or `NULL`.
pub record Inode : Type 0 where
  pub i_ino : ℕ
  pub i_mode : ℕ
  pub i_size : ℕ
  pub i_blocks : ℕ
  pub i_nlink : ℕ
  pub i_uid : ℕ
  pub i_gid : ℕ
  pub i_atime : ℕ
  pub i_mtime : ℕ
  pub i_ctime : ℕ
  pub i_op : Operations
  pub i_private : Option ℕ

-- `S_ISDIR`, `S_ISREG` and `S_ISLNK`: the four bits of the mode above the twelve of the permissions.
abbrev pub file_type : ℕ → ℕ
file_type mode = mode / 4096 % 16

abbrev pub is_dir : ℕ → Bool
is_dir mode = file_type mode == 4

abbrev pub is_reg : ℕ → Bool
is_reg mode = file_type mode == 8

abbrev pub is_lnk : ℕ → Bool
is_lnk mode = file_type mode == 10
