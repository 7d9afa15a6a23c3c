-- ===== src/Osfs/Inodes.antt =====
-- lab4/inode.c and lab4/dir.c: finding an inode of the table, loading it into the VFS, and making a
-- new one.
pub mod Outcome
pub mod Laws
use ncku_operating_system.Base.{
  ℕ, Bool, false, not, ◌&&◌, ◌||◌, Option, none, some, leb, ◌==◌, if◌then◌else◌, update, dec32,
}
use ncku_operating_system.Osfs.Types.{
  einval, enospc, enomem, eio, efault, Result, ok, err, OsfsInode, zero_inode, dir_operations,
  file_operations, Inode, SbInfo, is_dir, is_reg, is_lnk,
}
use ncku_operating_system.Osfs.Alloc.{osfs_get_free_inode, osfs_alloc_data_block}

-- What `inode_init_owner` decides for a new inode.
pub record Owner : Type 0 where
  pub owner_mode : ℕ
  pub owner_uid : ℕ
  pub owner_gid : ℕ

-- What the module calls of the kernel: `new_inode`, which may have no memory; `inode_init_owner`, which
-- sets the uid, the gid and the mode of an inode from its directory (`none` for `NULL`) and the mode
-- asked for, with the mount's map of user ids (`true`) or with none (`false`); and `current_time`. The
-- inode cache, the dentry cache and the reference counts (`iput`, `insert_inode_hash`, `dget`,
-- `mark_inode_dirty`) do not touch the state of the module.
pub record Vfs : Type 0 where
  pub new_inode : Option Inode
  pub inode_init_owner : Bool → Option Inode → (mode : ℕ) → Owner
  pub current_time : ℕ

abbrev pub init_owner : Vfs → Bool → Option Inode → (mode : ℕ) → Inode → Inode
init_owner vfs mapped dir mode inode =
    let owner = vfs.inode_init_owner mapped dir mode in
    record inode { i_mode = owner.owner_mode; i_uid = owner.owner_uid; i_gid = owner.owner_gid }

-- A pointer into the inode table is the index of the entry.
unfoldable pub osfs_get_osfs_inode : SbInfo → ℕ → Option ℕ
osfs_get_osfs_inode sb ino = if ino == 0 || leb sb.inode_count ino then none else some ino

-- The VFS inode that `osfs_iget` fills in from entry `p` of the table.
abbrev pub loaded : SbInfo → (ino p : ℕ) → Inode → Inode
loaded sb ino p fresh =
    let node = sb.inode_table p in
    record fresh {
      i_ino = ino;
      i_mode = node.i_mode;
      i_uid = node.i_uid;
      i_gid = node.i_gid;
      i_atime = node.i_atime;
      i_mtime = node.i_mtime;
      i_ctime = node.i_ctime;
      i_size = node.i_size;
      i_blocks = node.i_blocks;
      i_private = some p;
      i_op =
          (if is_dir node.i_mode
            then dir_operations
            else if is_reg node.i_mode
            then file_operations
            else fresh.i_op);
    }

unfoldable pub osfs_iget : Vfs → SbInfo → ℕ → Result Inode
osfs_iget vfs sb ino = elim (osfs_get_osfs_inode sb ino) [
  | none ↦ err efault
  | some p ↦ elim vfs.new_inode [ none ↦ err enomem | some fresh ↦ ok (loaded sb ino p fresh) ]
]

-- The VFS inode that `osfs_new_inode` sets up, before it has an entry of the table.
abbrev pub set_up : Vfs → Inode → (mode ino : ℕ) → Inode → Inode
set_up vfs dir mode ino fresh =
    let owned = init_owner vfs false (some dir) mode fresh in
    record owned {
      i_ino = ino;
      i_blocks = 0;
      i_atime = vfs.current_time;
      i_mtime = vfs.current_time;
      i_ctime = vfs.current_time;
      i_op =
          (if is_dir mode
            then dir_operations
            else if is_reg mode
            then file_operations
            else owned.i_op);
      i_nlink = (if is_dir mode then 2 else 1);
      i_size = 0;
    }

-- The entry of the table for a new inode, before it has a data block.
abbrev pub new_node : Vfs → Inode → OsfsInode
new_node vfs inode = record zero_inode {
  i_ino = inode.i_ino;
  i_mode = inode.i_mode;
  i_uid = inode.i_uid;
  i_gid = inode.i_gid;
  i_size = inode.i_size;
  i_blocks = 1;
  i_atime = vfs.current_time;
  i_mtime = vfs.current_time;
  i_ctime = vfs.current_time;
}

-- The end of `osfs_new_inode`, given the result of the allocation of the data block.
unfoldable pub new_inode_block : (p : ℕ) → Inode → Result ℕ × SbInfo → Result Inode × SbInfo
new_inode_block p inode (err e, sb) = (err e, sb)
new_inode_block p inode (ok block, sb) = (
  ok inode,
  record sb {
    inode_table = update sb.inode_table p (record (sb.inode_table p) { i_block = block });
    nr_free_inodes = dec32 sb.nr_free_inodes;
  },
)

-- `osfs_new_inode` from the entry of the table on.
unfoldable pub new_inode_entry : Vfs → Inode → SbInfo → Result Inode × SbInfo
new_inode_entry vfs inode sb = elim (osfs_get_osfs_inode sb inode.i_ino) [
  | none ↦ (err eio, sb)
  | some p ↦
      new_inode_block p (record inode { i_private = some p })
        (osfs_alloc_data_block
          (record sb { inode_table = update sb.inode_table p (new_node vfs inode) }))
]

-- `osfs_new_inode` after the allocation of the inode number, given its result.
unfoldable pub new_inode_number :
    Vfs → Inode → (mode : ℕ) → Result ℕ × SbInfo → Result Inode × SbInfo
new_inode_number vfs dir mode (err e, sb) = (err enospc, sb)
new_inode_number vfs dir mode (ok ino, sb) =
    if leb sb.inode_count ino then (err enospc, sb) else elim vfs.new_inode [
      | none ↦ (err enomem, sb)
      | some fresh ↦ new_inode_entry vfs (set_up vfs dir mode ino fresh) sb
    ]

unfoldable pub osfs_new_inode : Vfs → SbInfo → Inode → (mode : ℕ) → Result Inode × SbInfo
osfs_new_inode vfs sb dir mode =
    if not (is_dir mode) && not (is_reg mode) && not (is_lnk mode)
    then (err einval, sb)
    else if sb.nr_free_inodes == 0 || sb.nr_free_blocks == 0
    then (err enospc, sb)
    else new_inode_number vfs dir mode (osfs_get_free_inode sb)
