-- ===== src/Osfs/Dir/Examples.antt =====
-- lab4/dir.c and lab4/super.c: the theorems about directories and mounting at a small concrete disk.
use ncku_operating_system.Base.{
  ℕ, ◌≡◌, refl, true, List, [], ◌∷◌, none, some, arith, ◌==◌, if◌then◌else◌, count_set, ==_iff,
}
use ncku_operating_system.Osfs.Types.{
  ok, OsfsInode, Inode, dir_operations, no_operations, SbInfo, zero_inode, block_size,
  dir_entry_size, osfs_magic, Result,
}
use ncku_operating_system.Osfs.Alloc.{find_clear, osfs_alloc_data_block, osfs_get_free_inode}
use ncku_operating_system.Osfs.Alloc.Accounting.{IsCounted}
use ncku_operating_system.Osfs.Inodes.{
  Vfs, osfs_get_osfs_inode, osfs_new_inode, new_inode_number, new_inode_entry, new_inode_block,
}
use ncku_operating_system.Osfs.Dir.{put_entry, find_entry, osfs_add_dir_entry}
use ncku_operating_system.Osfs.Dir.Create.{
  osfs_create, create_inode, create_node, create_filled, create_entered,
}
use ncku_operating_system.Osfs.Dir.CreateLaws.{
  CreateOutcome, osfs_create_lem, osfs_create-IsCounted,
}
use ncku_operating_system.Osfs.Dir.LookupLaws.{Found, osfs_lookup-osfs_create}
use ncku_operating_system.Osfs.Dir.Iterate.{Listed, Emit, DirContext, osfs_iterate}
use ncku_operating_system.Osfs.Dir.IterateLaws.{Listing, put_entry-IsEntry, osfs_iterate_lem}
use ncku_operating_system.Osfs.Super.{SuperBlock, Mount, osfs_fill_super}
use ncku_operating_system.Osfs.Super.Laws.{MountOutcome, osfs_fill_super_lem}

abbrev regular : ℕ
regular = 0x81A4

abbrev directory : ℕ
directory = 0x41ED

-- The root directory in entry 1, with block 0.
abbrev root_node : OsfsInode
root_node = record zero_inode { i_ino = 1; i_blocks = 1; i_mode = directory }

abbrev disk : SbInfo
disk = record {
  magic = osfs_magic;
  sb_block_size = block_size;
  inode_count = 20;
  block_count = 20;
  nr_free_inodes = 19;
  nr_free_blocks = 19;
  inode_bitmap = λ i. i == 1;
  block_bitmap = λ i. i == 0;
  inode_table = λ i. if i == 1 then root_node else zero_inode;
  data_blocks = λ x. 0;
}

abbrev blank : Inode
blank = record {
  i_ino = 0;
  i_mode = 0;
  i_size = 0;
  i_blocks = 0;
  i_nlink = 1;
  i_uid = 0;
  i_gid = 0;
  i_atime = 0;
  i_mtime = 0;
  i_ctime = 0;
  i_op = no_operations;
  i_private = none;
}

abbrev root : Inode
root = record blank {
  i_ino = 1;
  i_mode = directory;
  i_blocks = 1;
  i_op = dir_operations;
  i_private = some 1;
}

abbrev vfs : Vfs
vfs = record {
  new_inode = some blank;
  inode_init_owner =
      λ mapped parent mode. record { owner_mode = mode; owner_uid = 0; owner_gid = 0 };
  current_time = 7;
}

abbrev name : List ℕ
name = b'a' ∷ b'b' ∷ []

disk-IsCounted : IsCounted disk
unfolding count_set
disk-IsCounted = record {
  blocks = refl;
  inodes = refl;
  blocks_fit = omega arith;
  inodes_fit = omega arith;
}

osfs_create_lem_example :
    CreateOutcome vfs disk 1 regular name (osfs_create vfs disk root name regular)
osfs_create_lem_example =
    osfs_create_lem vfs disk root name regular 1 disk-IsCounted refl refl (omega arith)
      (omega arith)

root_in_use : (p : ℕ) → root.i_private ≡ some p → disk.inode_bitmap p ≡ true
root_in_use p e = let same : p ≡ 1 = cc e in (==_iff p 1).1 same

osfs_create-IsCounted_example : IsCounted (osfs_create vfs disk root name regular).sb
osfs_create-IsCounted_example =
    osfs_create-IsCounted vfs disk root name regular disk-IsCounted root_in_use

create_runs : (osfs_create vfs disk root name regular).result ≡ ok tt
unfolding osfs_create create_inode create_node create_filled create_entered osfs_new_inode
    new_inode_number new_inode_entry new_inode_block osfs_get_osfs_inode osfs_get_free_inode
    osfs_alloc_data_block find_clear osfs_add_dir_entry find_entry
create_runs = refl

osfs_lookup-osfs_create_example : Found vfs disk 1 name (osfs_create vfs disk root name regular)
osfs_lookup-osfs_create_example =
    osfs_lookup-osfs_create vfs vfs blank disk root name regular 1 refl disk-IsCounted refl refl
      ((omega arith, (omega arith, tt))) (omega arith) (omega arith) (λ i h. absurd (omega arith))
      create_runs

abbrev emit : Emit
emit = record {
  dir_emit = λ emitted entry. true;
  dir_emit_dots = λ ctx. (true, record ctx { pos = 2 });
}

abbrev at_start : DirContext
at_start = record { pos = 2; emitted = [] }

-- The disk when the directory has one entry, for inode 5.
abbrev listed_disk : SbInfo
listed_disk = record disk {
  inode_table = λ i. record root_node { i_size = dir_entry_size };
  data_blocks = put_entry disk.data_blocks 0 0 name 5;
}

abbrev entries : List Listed
entries = record { text = name; number = 5 } ∷ []

osfs_iterate_lem_example :
    (r : Result (Unit {0}) × DirContext) × (osfs_iterate emit listed_disk 1 at_start ≡ some r)
    × Listing emit entries at_start r
osfs_iterate_lem_example =
    osfs_iterate_lem emit listed_disk 1 0 entries at_start refl (omega arith) refl (
      put_entry-IsEntry disk.data_blocks 0 0 5 name ((omega arith, (omega arith, tt))) (omega arith)
          (omega arith),
      tt,
    )

abbrev empty_super : SuperBlock
empty_super = record { s_magic = 0; s_fs_info = none; s_root = none; freed = 0 }

abbrev mount : Mount
mount = record { vfs = vfs; vmalloc = true; d_make_root = λ inode. true }

osfs_fill_super_lem_example : MountOutcome mount empty_super (osfs_fill_super mount empty_super)
osfs_fill_super_lem_example = osfs_fill_super_lem mount empty_super
