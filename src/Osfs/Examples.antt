-- ===== src/Osfs/Examples.antt =====
-- lab4: the theorems about the file system at a small concrete disk, and runs of the code on it.
use ncku_operating_system.Base.{
  ℕ, ◌<◌, ◌≡◌, refl, ◌||◌, List, [], ◌∷◌, Option, none, some, ◌⊎◌, arith, ltb, ◌==◌, u32_mod, All,
  length, get_elem?, ◌%◌,
}
use ncku_operating_system.Osfs.Types.{
  Bytes, ok, err, efault, OsfsInode, Inode, file_operations, SbInfo, zero_inode, block_size,
  osfs_magic, osfs_extent_magic,
}
use ncku_operating_system.Osfs.Memory.{write_bytes, load32, store32}
use ncku_operating_system.Osfs.Alloc.{osfs_alloc_data_block, find_clear}
use ncku_operating_system.Osfs.Extent.{
  osfs_get_extent_header, sum_lens, osfs_extent_total_blocks, find_extent, osfs_extent_lookup_block,
  extend_table, append_allocated, osfs_extent_append_block, ensure_header, osfs_extent_ensure_table,
}
use ncku_operating_system.Osfs.Extent.Blocks.{
  block_map, blocks_from, span, phys, found_or_enoent, IsHeader, osfs_extent_lookup_block_lem,
  osfs_extent_total_blocks_lem,
}
use ncku_operating_system.Osfs.Extent.State.{AppendOutcome, osfs_extent_append_block_lem}
use ncku_operating_system.Osfs.Alloc.{osfs_free_data_block}
use ncku_operating_system.Osfs.Alloc.Laws.{
  BlockAlloc, InodeAlloc, osfs_alloc_data_block_lem, osfs_get_free_inode_lem,
}
use ncku_operating_system.Osfs.Alloc.Accounting.{
  IsCounted, osfs_alloc_data_block-IsCounted, free-alloc,
}
use ncku_operating_system.Osfs.File.FreshLaws.{IsFresh, with_table, osfs_write-fresh}
use ncku_operating_system.Osfs.File.ReadLaws.{ReadsFile, osfs_read_lem}
use ncku_operating_system.Base.{count_set}
use ncku_operating_system.Osfs.Extent.State.{IsFile}
use ncku_operating_system.Osfs.File.{UserCopy, ReadResult, WriteResult}
use ncku_operating_system.Osfs.File.Read.{osfs_read}
use ncku_operating_system.Osfs.File.Write.{
  osfs_write, osfs_extent_do_write, write_with_table, write_loop, write_end, locate_block,
  located_after_append,
}
use ncku_operating_system.Osfs.File.Chunk.{CopiesFrom}
use ncku_operating_system.Osfs.File.WriteLaws.{HasTable, osfs_write_lem, WritesFile}
use ncku_operating_system.Osfs.File.ReadLoop.{FaultsTo}
use ncku_operating_system.Osfs.File.ReadLaws.{read-write}

-- Block 0 is the root directory, block 1 the empty extent table of the file with inode 2.
abbrev disk_bytes : Bytes
disk_bytes = store32 (λ _. 0) 1024 osfs_extent_magic

abbrev regular : ℕ
regular = 0x81A4

abbrev file_node : OsfsInode
file_node = record zero_inode { i_ino = 2; i_blocks = 1; i_mode = regular; i_block = 1 }

abbrev disk : SbInfo
disk = record {
  magic = osfs_magic;
  sb_block_size = block_size;
  inode_count = 20;
  block_count = 20;
  nr_free_inodes = 18;
  nr_free_blocks = 18;
  inode_bitmap = λ i. i == 1 || i == 2;
  block_bitmap = λ i. ltb i 2;
  inode_table = λ i. file_node;
  data_blocks = disk_bytes;
}

abbrev file_inode : Inode
file_inode = record {
  i_ino = 2;
  i_mode = regular;
  i_size = 0;
  i_blocks = 1;
  i_nlink = 1;
  i_uid = 0;
  i_gid = 0;
  i_atime = 0;
  i_mtime = 0;
  i_ctime = 0;
  i_op = file_operations;
  i_private = some 2;
}

-- A user whose buffers can always be copied.
abbrev user : UserCopy
user = record {
  copy_from_user = λ m a bs. (0, write_bytes m a bs);
  copy_to_user = λ done bs. 0;
  current_time = 7;
}

user-CopiesFrom : CopiesFrom user
user-CopiesFrom m a bs e = refl

disk-IsFile : IsFile disk 1
unfolding block_map blocks_from load32 store32
disk-IsFile = record {
  space = omega arith;
  table_used = (omega arith, refl);
  table = record { is_magic = refl; count_fits = omega arith; runs = λ i h. absurd (omega arith) };
  owned = tt;
  distinct = λ i j b e q. absurd (cc e);
}

disk-HasTable : HasTable disk 2 1
unfolding block_map blocks_from load32 store32
disk-HasTable = record { counted = refl; at = refl; not_first = omega arith; file = disk-IsFile }

abbrev greeting : List ℕ
greeting = b'h' ∷ b'i' ∷ []

written_or : Option WriteResult → WriteResult
written_or none = record { result = err efault; ppos = 0; sb = disk; inode = file_inode }
written_or (some w) = w

-- The state after two bytes have been written to the empty file.
written : WriteResult
unfolding written_or osfs_write osfs_extent_do_write osfs_extent_ensure_table ensure_header
    osfs_get_extent_header write_with_table write_loop write_end locate_block located_after_append
    osfs_extent_total_blocks sum_lens osfs_extent_lookup_block find_extent osfs_extent_append_block
    append_allocated extend_table osfs_alloc_data_block find_clear load32 store32 write_bytes
written = written_or (osfs_write user disk file_inode greeting 0)

read-write_example :
    (r : ReadResult) × (osfs_read user written.sb file_inode 2 0 ≡ some r)
    × ((r.result ≡ ok greeting) ⊎ ((r.result ≡ err efault) × FaultsTo user))
unfolding written
read-write_example =
    read-write user user-CopiesFrom disk 2 1 0 greeting file_inode refl refl disk-HasTable
      (omega arith) (omega arith) (omega arith) (omega arith) (omega arith) written 2 refl refl
      file_inode refl refl

osfs_write_lem_example :
    WritesFile user user-CopiesFrom disk 2 1 0 greeting (osfs_write user disk file_inode greeting 0)
osfs_write_lem_example =
    osfs_write_lem user user-CopiesFrom disk 2 1 0 greeting file_inode refl refl disk-HasTable
      (omega arith) (omega arith)

osfs_read_lem_example : ReadsFile user disk 2 1 10 0 (osfs_read user disk file_inode 10 0)
osfs_read_lem_example =
    osfs_read_lem user disk 2 1 10 0 file_inode refl refl disk-HasTable (omega arith)

osfs_extent_append_block_lem_example :
    AppendOutcome disk 1 2 file_inode
      (osfs_extent_append_block disk (some 2) file_inode (some 1024))
osfs_extent_append_block_lem_example =
    osfs_extent_append_block_lem disk 1 2 file_inode disk-IsFile (omega arith)

-- A table of two extents at byte 0: blocks 3 and 4, and block 7.
abbrev two_extents : Bytes
two_extents =
    store32
      (store32 (store32 (store32 (store32 (store32 (λ _. 0) 0 osfs_extent_magic) 4 2) 8 3) 12 2) 16
        7)
      20 1

two_extents-IsHeader : IsHeader two_extents 0
unfolding load32 store32 write_bytes
two_extents-IsHeader = record { is_magic = refl; count_fits = omega arith }

two_extents-fit : All (λ b. b < u32_mod) (block_map two_extents 0)
unfolding block_map blocks_from span load32 store32 write_bytes
two_extents-fit = (omega arith, (omega arith, (omega arith, tt)))

osfs_extent_lookup_block_lem_example :
    phys (osfs_extent_lookup_block two_extents (some 0) 2)
    ≡ found_or_enoent (get_elem? (block_map two_extents 0) 2)
osfs_extent_lookup_block_lem_example =
    osfs_extent_lookup_block_lem two_extents 0 2 two_extents-IsHeader two_extents-fit (omega arith)

osfs_extent_total_blocks_lem_example :
    osfs_extent_total_blocks two_extents (some 0) ≡ length (block_map two_extents 0) % u32_mod
osfs_extent_total_blocks_lem_example =
    osfs_extent_total_blocks_lem two_extents 0 two_extents-IsHeader

osfs_alloc_data_block_lem_example : BlockAlloc disk
osfs_alloc_data_block_lem_example = osfs_alloc_data_block_lem disk

osfs_get_free_inode_lem_example : InodeAlloc disk
osfs_get_free_inode_lem_example = osfs_get_free_inode_lem disk

disk-IsCounted : IsCounted disk
unfolding count_set
disk-IsCounted = record {
  blocks = refl;
  inodes = refl;
  blocks_fit = omega arith;
  inodes_fit = omega arith;
}

osfs_alloc_data_block-IsCounted_example : IsCounted (osfs_alloc_data_block disk).1
osfs_alloc_data_block-IsCounted_example = osfs_alloc_data_block-IsCounted disk disk-IsCounted

disk-free : (osfs_alloc_data_block disk).0 ≡ ok 2
unfolding osfs_alloc_data_block find_clear
disk-free = refl

free-alloc_example : osfs_free_data_block (osfs_alloc_data_block disk).1 2 ≡ disk
free-alloc_example = free-alloc disk (omega arith) disk-free

-- The same disk before the first write to the file: its block holds zeros.
abbrev new_disk : SbInfo
new_disk = record disk { data_blocks = λ x. 0 }

new_disk-IsFresh : IsFresh new_disk 2 1
unfolding load32
new_disk-IsFresh = record {
  one_block = refl;
  at = refl;
  not_first = omega arith;
  space = omega arith;
  used = (omega arith, refl);
  no_magic = refl;
}

osfs_write-fresh_example :
    WritesFile user user-CopiesFrom
      (with_table new_disk 1)
      2
      1
      0
      greeting
      (osfs_write user new_disk file_inode greeting 0)
osfs_write-fresh_example =
    osfs_write-fresh new_disk 2 1 new_disk-IsFresh user user-CopiesFrom 0 greeting file_inode refl
      refl (omega arith) (omega arith)
