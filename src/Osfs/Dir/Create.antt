-- ===== src/Osfs/Dir/Create.antt =====
-- lab4/dir.c: the creation of a file in a directory.
use ncku_operating_system.Base.{
  ℕ, true, false, not, ◌&&◌, List, Option, none, some, leb, ◌==◌, if◌then◌else◌, update, length,
  inc32,
}
use ncku_operating_system.Osfs.Types.{
  Errno, eio, enametoolong, Result, ok, err, OsfsInode, Inode, SbInfo, max_filename_len,
}
use ncku_operating_system.Osfs.Alloc.{osfs_alloc_data_block, osfs_free_data_block}
use ncku_operating_system.Osfs.Inodes.{Vfs, init_owner, osfs_new_inode}
use ncku_operating_system.Osfs.Dir.{osfs_add_dir_entry}

-- What `osfs_create` leaves: its result, the state, the directory's VFS inode, and the inode that
-- `d_instantiate` binds to the dentry.
pub record CreateResult : Type 0 where
  pub result : Result (Unit {0})
  pub sb : SbInfo
  pub dir : Inode
  pub bound : Option Inode

abbrev pub create_failed : Errno → SbInfo → Inode → CreateResult
create_failed e sb dir = record { result = err e; sb = sb; dir = dir; bound = none }

abbrev pub set_node : SbInfo → ℕ → OsfsInode → SbInfo
set_node sb p node = record sb { inode_table = update sb.inode_table p node }

-- `clear_bit(inode->i_ino, sb_info->inode_bitmap)` and `nr_free_inodes++`.
abbrev pub release_inode : SbInfo → ℕ → SbInfo
release_inode sb ino = record sb {
  inode_bitmap = update sb.inode_bitmap ino false;
  nr_free_inodes = inc32 sb.nr_free_inodes;
}

-- The free of the data block on the failure of `osfs_add_dir_entry`.
abbrev pub release_block : SbInfo → OsfsInode → SbInfo
release_block sb node = if node.i_blocks == 0 then sb else osfs_free_data_block sb node.i_block

-- The parent's entry of the table in step 5.
abbrev pub touched : Vfs → OsfsInode → OsfsInode
touched vfs parent = record parent { i_mtime = vfs.current_time; i_ctime = vfs.current_time }

-- `osfs_create` from the test of the result of `osfs_add_dir_entry` on. Entry `p` of the table is the
-- parent's, entry `q` the new inode's.
unfoldable pub create_entered :
    Vfs → (p q : ℕ) → (dir inode : Inode) → Result (Unit {0}) × SbInfo → CreateResult
create_entered vfs p q dir inode (err e, sb) =
    create_failed e (release_inode (release_block sb (sb.inode_table q)) inode.i_ino) dir
create_entered vfs p q dir inode (ok _, sb) = record {
  result = ok tt;
  sb = set_node sb p (touched vfs (sb.inode_table p));
  dir = record dir {
    i_size = (sb.inode_table p).i_size;
    i_mtime = vfs.current_time;
    i_ctime = vfs.current_time;
  };
  bound = some inode;
}

-- The members set at `skip_data_block_allocation`, in the table and in the VFS inode.
abbrev pub filled_node : Vfs → (block : ℕ) → Inode → OsfsInode → OsfsInode
filled_node vfs block inode node = record node {
  i_block = block;
  i_blocks = 1;
  i_size = 0;
  i_mode = inode.i_mode;
  i_uid = inode.i_uid;
  i_gid = inode.i_gid;
  i_links_count = inode.i_nlink;
  i_mtime = vfs.current_time;
  i_ctime = vfs.current_time;
}

abbrev pub filled_inode : OsfsInode → Inode → Inode
filled_inode node inode = record inode {
  i_blocks = node.i_blocks;
  i_mtime = node.i_mtime;
  i_ctime = node.i_ctime;
  i_atime = node.i_atime;
  i_size = node.i_size;
}

-- `osfs_create` from the label `skip_data_block_allocation` on.
unfoldable pub create_filled :
    Vfs → (p q block : ℕ) → (dir inode : Inode) → List ℕ → SbInfo → CreateResult
create_filled vfs p q block dir inode name sb =
    let node = filled_node vfs block inode (sb.inode_table q) in
    create_entered vfs p q dir (filled_inode node inode)
      (osfs_add_dir_entry (set_node sb q node) p inode.i_ino name)

-- The second allocation of a data block, given its result.
unfoldable pub create_block :
    Vfs → (p q : ℕ) → (dir inode : Inode) → List ℕ → Result ℕ × SbInfo → CreateResult
create_block vfs p q dir inode name (err e, sb) = create_failed e (release_inode sb inode.i_ino) dir
create_block vfs p q dir inode name (ok block, sb) = create_filled vfs p q block dir inode name sb

-- `osfs_create` from step 3 on: block 0 counts as a block only when the inode says that it has one.
unfoldable pub create_node : Vfs → (p q : ℕ) → (dir inode : Inode) → List ℕ → SbInfo → CreateResult
create_node vfs p q dir inode name sb =
    let node = sb.inode_table q in
    let cleared = set_node sb q (record node { i_block = 0; i_size = 0; i_blocks = 0 }) in
    if node.i_block == 0 && not (node.i_blocks == 0)
    then create_filled vfs p q node.i_block dir inode name cleared
    else if node.i_block == 0
    then create_block vfs p q dir inode name (osfs_alloc_data_block cleared)
    else create_filled vfs p q node.i_block dir inode name cleared

-- `osfs_create` from the result of `osfs_new_inode` on.
unfoldable pub create_inode :
    Vfs → (p : ℕ) → (dir : Inode) → List ℕ → (mode : ℕ) → Result Inode × SbInfo → CreateResult
create_inode vfs p dir name mode (err e, sb) = create_failed e sb dir
create_inode vfs p dir name mode (ok inode, sb) =
    let counted = record sb { nr_free_inodes = inc32 sb.nr_free_inodes } in
    elim inode.i_private [
      | none ↦ create_failed eio counted dir
      | some q ↦ create_node vfs p q dir (init_owner vfs true (some dir) mode inode) name counted
    ]

-- The first file of a directory gives the directory its block; the result of that allocation.
unfoldable pub create_in_block :
    Vfs → (p : ℕ) → (dir : Inode) → List ℕ → (mode : ℕ) → Result ℕ × SbInfo → CreateResult
create_in_block vfs p dir name mode (err e, sb) = create_failed e sb dir
create_in_block vfs p dir name mode (ok block, sb) =
    let with_block = set_node sb p (record (sb.inode_table p) { i_block = block; i_blocks = 1 }) in
    let grown = record dir { i_blocks = 1 } in
    create_inode vfs p grown name mode (osfs_new_inode vfs with_block grown mode)

-- `dentry->d_name` is `name`, `dir->i_private` points to entry `p` of the table.
unfoldable pub osfs_create : Vfs → SbInfo → Inode → List ℕ → (mode : ℕ) → CreateResult
osfs_create vfs sb dir name mode = elim dir.i_private [
  | none ↦ create_failed eio sb dir
  | some p ↦
      if leb max_filename_len (length name)
      then create_failed enametoolong sb dir
      else if (sb.inode_table p).i_blocks == 0
      then create_in_block vfs p dir name mode (osfs_alloc_data_block sb)
      else create_inode vfs p dir name mode (osfs_new_inode vfs sb dir mode)
]
