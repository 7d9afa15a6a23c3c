-- ===== src/Osfs/Dir.antt =====
-- lab4/dir.c: a directory is an array of entries in its data block; lookup and creation of files.
pub mod Create
pub mod Iterate
pub mod EntryLaws
pub mod Made
pub mod CreateLaws
pub mod Names
pub mod LookupLaws
pub mod IterateLaws
mod Examples
use ncku_operating_system.Base.{
  ℕ, zero, suc, ◌+◌, ◌-◌, ◌*◌, ◌/◌, Bool, true, false, not, ◌&&◌, ◌||◌, List, [], ◌∷◌, Option, none,
  some, leb, ltb, ◌==◌, if◌then◌else◌, update, length, add32, inc32,
}
use ncku_operating_system.Osfs.Types.{
  Bytes, Errno, enospc, eio, eexist, enametoolong, Result, ok, err, OsfsInode, Inode, SbInfo,
  block_size, data_block_count, dir_entry_size, inode_no_offset, max_dir_entries, max_filename_len,
}
use ncku_operating_system.Osfs.Memory.{write_bytes, load32, store32}
use ncku_operating_system.Osfs.Alloc.{osfs_alloc_data_block, osfs_free_data_block}
use ncku_operating_system.Osfs.Extent.{block_address}
use ncku_operating_system.Osfs.Inodes.{Vfs, osfs_iget, osfs_new_inode}

-- `strlen` of the text at `a`; the scan stops at the end of the data blocks.
unfoldable pub strlen : (rounds : ℕ) → Bytes → ℕ → ℕ
strlen zero m a = 0
strlen (suc rounds) m a = if m a == 0 then 0 else suc (strlen rounds m (suc a))

abbrev pub text_limit : ℕ
text_limit = data_block_count * block_size

-- `strncmp(text at a, name, length name) == 0`.
unfoldable pub strncmp_eq : Bytes → ℕ → List ℕ → Bool
strncmp_eq m a [] = true
strncmp_eq m a (c ∷ name) =
    if m a == c then (if c == 0 then true else strncmp_eq m (suc a) name) else false

-- The bytes that `strncpy(dest, name, length name)` stores: zeros from the first NUL on.
unfoldable pub strncpy_bytes : Bool → List ℕ → List ℕ
strncpy_bytes ended [] = []
strncpy_bytes ended (c ∷ name) =
    let stop = ended || c == 0 in (if stop then 0 else c) ∷ strncpy_bytes stop name

-- The address of `dir_entries[i]`, in the block at `base`.
abbrev pub entry_at : ℕ → ℕ → ℕ
entry_at base i = base + dir_entry_size * i

abbrev pub entry_inode_no : Bytes → ℕ → ℕ → ℕ
entry_inode_no m base i = load32 m (entry_at base i + inode_no_offset)

-- The test of both loops over the entries.
abbrev pub entry_matches : Bytes → ℕ → ℕ → List ℕ → Bool
entry_matches m base i name =
    strlen text_limit m (entry_at base i) == length name && strncmp_eq m (entry_at base i) name

-- The loops of `osfs_lookup` and `osfs_add_dir_entry`: the first entry of that name.
unfoldable pub find_entry : Bytes → ℕ → (i rounds : ℕ) → List ℕ → Option ℕ
find_entry m base i zero name = none
find_entry m base i (suc rounds) name =
    if entry_matches m base i name then some i else find_entry m base (suc i) rounds name

abbrev pub dir_entry_count : OsfsInode → ℕ
dir_entry_count parent = parent.i_size / dir_entry_size

-- `dir->i_private` points to entry `parent` of the inode table. `none` is the result `NULL`: the file
-- was not found.
unfoldable pub osfs_lookup : Vfs → SbInfo → (parent : ℕ) → List ℕ → Option (Result Inode)
osfs_lookup vfs sb parent name =
    let node = sb.inode_table parent in
    let base = block_address node.i_block in
    elim (find_entry sb.data_blocks base 0 (dir_entry_count node) name) [
      | none ↦ none
      | some i ↦ some (osfs_iget vfs sb (entry_inode_no sb.data_blocks base i))
    ]

-- The bytes of the data blocks with entry `i` filled in: the name, its NUL, the inode number.
abbrev pub put_entry : Bytes → ℕ → ℕ → List ℕ → ℕ → Bytes
put_entry m base i name inode_no =
    store32
      (write_bytes (write_bytes m (entry_at base i) (strncpy_bytes false name))
        (entry_at base i + length name) (0 ∷ []))
      (entry_at base i + inode_no_offset) inode_no

unfoldable pub osfs_add_dir_entry :
    SbInfo → (parent inode_no : ℕ) → List ℕ → Result (Unit {0}) × SbInfo
osfs_add_dir_entry sb parent inode_no name =
    let node = sb.inode_table parent in
    let base = block_address node.i_block in
    let count = dir_entry_count node in
    if leb max_dir_entries count
    then (err enospc, sb)
    else elim (find_entry sb.data_blocks base 0 count name) [
      | some _ ↦ (err eexist, sb)
      | none ↦ (
        ok tt,
        record sb {
          data_blocks = put_entry sb.data_blocks base count name inode_no;
          inode_table =
              update sb.inode_table parent
                (record node { i_size = add32 node.i_size dir_entry_size });
        },
      )
    ]
