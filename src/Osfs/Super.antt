-- ===== src/Osfs/Super.antt =====
-- lab4/super.c and lab4/osfs_init.c: mounting and unmounting.
pub mod Laws
use ncku_operating_system.Base.{
  ℕ, ◌+◌, ◌-◌, Bool, true, false, Option, none, some, if◌then◌else◌, update,
}
use ncku_operating_system.Osfs.Types.{
  enomem, eio, Result, ok, err, OsfsInode, zero_inode, dir_operations, Inode, SbInfo, block_size,
  max_inodes, data_block_count, root_inode, osfs_magic,
}
use ncku_operating_system.Osfs.Inodes.{Vfs, init_owner, osfs_get_osfs_inode}

-- The members of the VFS `struct super_block` that the module uses, with the number of times the
-- memory of the mount has been given to `vfree`.
pub record SuperBlock : Type 0 where
  pub s_magic : ℕ
  pub s_fs_info : Option SbInfo
  pub s_root : Option Inode
  pub freed : ℕ

-- What mounting calls of the kernel besides `Vfs`: whether `vmalloc` has memory and whether
-- `d_make_root` makes a dentry.
pub record Mount : Type 0 where
  pub vfs : Vfs
  pub vmalloc : Bool
  pub d_make_root : Inode → Bool

-- `S_IFDIR | 0755`.
abbrev pub root_mode : ℕ
root_mode = 0x41ED

-- The superblock information, from the zeroed memory to the cleared bitmaps.
abbrev pub fresh_sb : SbInfo
fresh_sb = record {
  magic = osfs_magic;
  sb_block_size = block_size;
  inode_count = max_inodes;
  block_count = data_block_count;
  nr_free_inodes = max_inodes - 1;
  nr_free_blocks = data_block_count;
  inode_bitmap = λ i. false;
  block_bitmap = λ i. false;
  inode_table = λ i. zero_inode;
  data_blocks = λ x. 0;
}

abbrev pub vfree : SuperBlock → SuperBlock
vfree s = record s { freed = s.freed + 1 }

-- The root directory's VFS inode before it has an entry of the table, and that entry.
abbrev pub root_set_up : Vfs → Inode → Inode
root_set_up vfs fresh = record fresh {
  i_ino = root_inode;
  i_op = dir_operations;
  i_mode = root_mode;
  i_nlink = 2;
  i_atime = vfs.current_time;
  i_mtime = vfs.current_time;
  i_ctime = vfs.current_time;
}

abbrev pub root_node : Vfs → Inode → OsfsInode
root_node vfs root = record zero_inode {
  i_ino = root_inode;
  i_mode = root.i_mode;
  i_links_count = 2;
  i_atime = vfs.current_time;
  i_mtime = vfs.current_time;
  i_ctime = vfs.current_time;
}

-- `osfs_fill_super` from the entry of the root directory on, at entry `p` of the table.
unfoldable pub fill_root :
    Mount → SuperBlock → SbInfo → (p : ℕ) → Inode → Result (Unit {0}) × SuperBlock
fill_root k s sb p root =
    let filled = record sb {
      inode_table = update sb.inode_table p (root_node k.vfs root);
      inode_bitmap = update sb.inode_bitmap root_inode true;
    } in
    let owned =
      init_owner k.vfs false none root.i_mode (record root { i_private = some p; i_size = 0 }) in
    let mounted = record s { s_fs_info = some filled } in
    if k.d_make_root owned
    then (ok tt, record mounted { s_root = some owned })
    else (err enomem, vfree mounted)

-- `osfs_fill_super` from `new_inode` on.
unfoldable pub fill_inode : Mount → SuperBlock → SbInfo → Result (Unit {0}) × SuperBlock
fill_inode k s sb = elim k.vfs.new_inode [
  | none ↦ (err enomem, vfree s)
  | some fresh ↦ elim (osfs_get_osfs_inode sb root_inode) [
    | none ↦ (err eio, vfree s)
    | some p ↦ fill_root k s sb p (root_set_up k.vfs fresh)
  ]
]

unfoldable pub osfs_fill_super : Mount → SuperBlock → Result (Unit {0}) × SuperBlock
osfs_fill_super k s =
    if k.vmalloc
    then fill_inode k (record s { s_magic = osfs_magic; s_fs_info = some fresh_sb }) fresh_sb
    else (err enomem, s)

unfoldable pub osfs_destroy_inode : Inode → Inode
osfs_destroy_inode inode = elim inode.i_private [
  | none ↦ inode
  | some _ ↦ record inode { i_private = none }
]

unfoldable pub osfs_kill_superblock : SuperBlock → SuperBlock
osfs_kill_superblock s = elim s.s_fs_info [
  | none ↦ s
  | some _ ↦ record (vfree s) { s_fs_info = none }
]
