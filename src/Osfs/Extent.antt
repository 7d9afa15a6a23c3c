-- ===== src/Osfs/Extent.antt =====
-- lab4/file.c: the extent table of a regular file, a header and an array of runs of blocks that lie
-- in the data block to which `i_block` points.
pub mod Blocks
pub mod Table
pub mod Append
pub mod State
use ncku_operating_system.Base.{
  ℕ, zero, suc, ◌+◌, ◌-◌, ◌*◌, Bool, true, false, ◌&&◌, ◌||◌, Option, none, some, not, ltb, leb,
  ◌==◌, if◌then◌else◌, update, add32, inc32, sub32, u32_mod, ◌%◌,
}
use ncku_operating_system.Osfs.Types.{
  Bytes, Errno, eio, enoent, enospc, Result, ok, err, OsfsInode, Inode, SbInfo, block_size,
  osfs_extent_magic, osfs_max_extents, extent_header_size, extent_size,
}
use ncku_operating_system.Osfs.Memory.{write_bytes, zero_bytes, load32, store32}
use ncku_operating_system.Osfs.Alloc.{osfs_alloc_data_block, osfs_free_data_block}

-- A pointer is `NULL` or the offset of its target from `data_blocks`; `osfs_inode` pointers are
-- indices into the inode table.

-- The members of `struct osfs_extent_header`.
abbrev pub header_magic : Bytes → ℕ → ℕ
header_magic m hdr = load32 m hdr

abbrev pub header_count : Bytes → ℕ → ℕ
header_count m hdr = load32 m (hdr + 4)

-- The members of `ext[i]`, a `struct osfs_extent` of the array behind the header.
abbrev pub extent_at : ℕ → ℕ → ℕ
extent_at hdr i = hdr + extent_header_size + extent_size * i

abbrev pub extent_start : Bytes → ℕ → ℕ → ℕ
extent_start m hdr i = load32 m (extent_at hdr i)

abbrev pub extent_len : Bytes → ℕ → ℕ → ℕ
extent_len m hdr i = load32 m (extent_at hdr i + 4)

-- The address of the first byte of a block, computed on `uint32_t`.
abbrev pub block_address : ℕ → ℕ
block_address block = block * block_size % u32_mod

unfoldable pub osfs_get_extent_header : SbInfo → Option ℕ → Option ℕ
osfs_get_extent_header sb none = none
osfs_get_extent_header sb (some ino) = some (block_address (sb.inode_table ino).i_block)

unfoldable pub osfs_extent_reset_header : Bytes → Option ℕ → Bytes
osfs_extent_reset_header m none = m
osfs_extent_reset_header m (some hdr) =
    store32 (store32 (write_bytes m hdr (zero_bytes block_size)) hdr osfs_extent_magic) (hdr + 4) 0

-- The loop of `osfs_extent_total_blocks`, `rounds` extents from `i` on.
unfoldable pub sum_lens : Bytes → ℕ → (i rounds total : ℕ) → ℕ
sum_lens m hdr i zero total = total
sum_lens m hdr i (suc rounds) total =
    sum_lens m hdr (suc i) rounds (add32 total (extent_len m hdr i))

unfoldable pub osfs_extent_total_blocks : Bytes → Option ℕ → ℕ
osfs_extent_total_blocks m none = 0
osfs_extent_total_blocks m (some hdr) =
    if not (header_magic m hdr == osfs_extent_magic)
    then 0
    else if ltb osfs_max_extents (header_count m hdr)
    then 0
    else sum_lens m hdr 0 (header_count m hdr) 0

-- What `osfs_extent_lookup_block` stores through its output pointers.
pub record Hit : Type 0 where
  pub found : ℕ
  pub phys_block : ℕ
  pub offset_in_ext : ℕ

-- The loop of `osfs_extent_lookup_block`.
unfoldable pub find_extent : Bytes → ℕ → (i rounds idx : ℕ) → Result Hit
find_extent m hdr i zero idx = err enoent
find_extent m hdr i (suc rounds) idx =
    if ltb idx (extent_len m hdr i)
    then ok
        (record { found = i; phys_block = add32 (extent_start m hdr i) idx; offset_in_ext = idx })
    else find_extent m hdr (suc i) rounds (sub32 idx (extent_len m hdr i))

unfoldable pub osfs_extent_lookup_block : Bytes → Option ℕ → ℕ → Result Hit
osfs_extent_lookup_block m none logical_idx = err enoent
osfs_extent_lookup_block m (some hdr) logical_idx =
    if not (header_magic m hdr == osfs_extent_magic)
    then err enoent
    else if ltb osfs_max_extents (header_count m hdr)
    then err eio
    else find_extent m hdr 0 (header_count m hdr) logical_idx

-- The table with `block` added: in the last extent if it follows that, else in an extent of its own;
-- `none` if the table is full.
unfoldable pub extend_table : Bytes → ℕ → ℕ → Option Bytes
extend_table m hdr block =
    let count = header_count m hdr in
    let last = count - 1 in
    if ltb 0 count && add32 (extent_start m hdr last) (extent_len m hdr last) == block
    then some (store32 m (extent_at hdr last + 4) (inc32 (extent_len m hdr last)))
    else if leb osfs_max_extents count
    then none
    else some (
        store32 (store32 (store32 m (extent_at hdr count) block) (extent_at hdr count + 4) 1)
          (hdr + 4) (inc32 count))

-- `osfs_inode->i_blocks++; inode->i_blocks = osfs_inode->i_blocks`.
abbrev pub count_block : OsfsInode → OsfsInode
count_block node = record node { i_blocks = inc32 node.i_blocks }

-- The part of `osfs_extent_append_block` after the allocation, given its result.
unfoldable pub append_allocated : ℕ → Inode → ℕ → Result ℕ × SbInfo → Result ℕ × SbInfo × Inode
append_allocated ino inode hdr (err e, sb) = (err e, sb, inode)
append_allocated ino inode hdr (ok block, sb) = elim (extend_table sb.data_blocks hdr block) [
  | none ↦ (err enospc, osfs_free_data_block sb block, inode)
  | some m ↦
      let node = count_block (sb.inode_table ino) in
      (
        ok block,
        record sb { inode_table = update sb.inode_table ino node; data_blocks = m },
        record inode { i_blocks = node.i_blocks },
      )
]

unfoldable pub osfs_extent_append_block :
    SbInfo → Option ℕ → Inode → Option ℕ → Result ℕ × SbInfo × Inode
osfs_extent_append_block sb none inode hdr = (err eio, sb, inode)
osfs_extent_append_block sb (some ino) inode none = (err eio, sb, inode)
osfs_extent_append_block sb (some ino) inode (some hdr) =
    if ltb osfs_max_extents (header_count sb.data_blocks hdr)
    then (err enospc, sb, inode)
    else append_allocated ino inode hdr (osfs_alloc_data_block sb)

-- The second half of `osfs_extent_ensure_table`: the header, reset if it is not one.
unfoldable pub ensure_header : SbInfo → Option ℕ → Inode → Result ℕ × SbInfo × Inode
ensure_header sb ino inode = elim (osfs_get_extent_header sb ino) [
  | none ↦ (err eio, sb, inode)
  | some hdr ↦
      if not (header_magic sb.data_blocks hdr == osfs_extent_magic)
        || ltb osfs_max_extents (header_count sb.data_blocks hdr)
      then (
        ok hdr,
        record sb { data_blocks = osfs_extent_reset_header sb.data_blocks (some hdr) },
        inode,
      )
      else (ok hdr, sb, inode)
]

-- The allocation of the block of the table, given the allocator's result.
unfoldable pub ensure_allocated : ℕ → Inode → Result ℕ × SbInfo → Result ℕ × SbInfo × Inode
ensure_allocated ino inode (err e, sb) = (err e, sb, inode)
ensure_allocated ino inode (ok block, sb) =
    ensure_header
      (record sb {
        inode_table =
            update sb.inode_table ino
              (record (sb.inode_table ino) { i_block = block; i_blocks = 1 });
      })
      (some ino) (record inode { i_blocks = 1 })

unfoldable pub osfs_extent_ensure_table : SbInfo → Option ℕ → Inode → Result ℕ × SbInfo × Inode
osfs_extent_ensure_table sb none inode = (err eio, sb, inode)
osfs_extent_ensure_table sb (some ino) inode =
    let node = sb.inode_table ino in
    if node.i_blocks == 0 || node.i_block == 0
    then ensure_allocated ino inode (osfs_alloc_data_block sb)
    else ensure_header sb (some ino) inode
