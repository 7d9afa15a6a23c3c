-- ===== src/Osfs/Inodes/Outcome.antt =====
-- lab4/dir.c: the outcomes of `osfs_new_inode`, and the causes of its failures.
use ncku_operating_system.Base.{
  ℕ, ◌≡◌, ◌≢◌, ◌⊎◌, Bool, true, false, ◌||◌, none, some, update, dec32,
}
use ncku_operating_system.Osfs.Types.{
  Errno, einval, enospc, enomem, ok, err, Inode, SbInfo, is_dir, is_reg, is_lnk,
}
use ncku_operating_system.Osfs.Alloc.{take_inode, take_block}
use ncku_operating_system.Osfs.Alloc.Laws.{IsFirstClear, AllSet}
use ncku_operating_system.Osfs.Alloc.Accounting.{IsCounted}
use ncku_operating_system.Osfs.Inodes.{Vfs, set_up, new_node, osfs_new_inode}

-- The VFS inode and the state that `osfs_new_inode` returns with inode `n` and block `b`.
abbrev pub made_inode : Vfs → Inode → (mode n : ℕ) → Inode → Inode
made_inode vfs dir mode n fresh = record (set_up vfs dir mode n fresh) { i_private = some n }

abbrev pub with_entry : Vfs → SbInfo → Inode → (mode n : ℕ) → Inode → SbInfo
with_entry vfs sb dir mode n fresh = record (take_inode sb n) {
  inode_table = update sb.inode_table n (new_node vfs (set_up vfs dir mode n fresh));
}

abbrev pub made_state : Vfs → SbInfo → Inode → (mode n b : ℕ) → Inode → SbInfo
made_state vfs sb dir mode n b fresh =
    let s = take_block (with_entry vfs sb dir mode n fresh) b in
    record s {
      inode_table = update s.inode_table n (record (s.inode_table n) { i_block = b });
      nr_free_inodes = dec32 s.nr_free_inodes;
    }

-- A new inode, in the first free entry and with the first free block.
pub record Made (vfs : Vfs) (sb : SbInfo) (dir : Inode) (mode : ℕ) : Type 0 where
  pub n : ℕ
  pub b : ℕ
  pub fresh : Inode
  pub inode_free : IsFirstClear sb.inode_bitmap 1 sb.inode_count n
  pub block_free : IsFirstClear sb.block_bitmap 0 sb.block_count b
  pub runs :
      osfs_new_inode vfs sb dir mode
      ≡ (ok (made_inode vfs dir mode n fresh), made_state vfs sb dir mode n b fresh)

-- The first clear bit of the inodes has been taken, and its entry of the table alone may have changed.
pub record TakesInode (sb state : SbInfo) : Type 0 where
  pub n : ℕ
  pub inode_free : IsFirstClear sb.inode_bitmap 1 sb.inode_count n
  pub bitmap : state.inode_bitmap ≡ update sb.inode_bitmap n true
  pub counter : state.nr_free_inodes ≡ dec32 sb.nr_free_inodes
  pub others : (i : ℕ) → i ≢ n → state.inode_table i ≡ sb.inode_table i

-- A directory, a regular file or a symbolic link.
abbrev pub is_typed : ℕ → Bool
is_typed mode = is_dir mode || is_reg mode || is_lnk mode

-- Why no inode is made, with the error and what has been taken before: the mode is of no kind; or one
-- of the counters is 0; or no inode is free; or the kernel has no memory for an inode, and the first
-- free one stays taken; or no block is free, and likewise.
abbrev pub RefusedBecause : Vfs → SbInfo → (mode : ℕ) → Errno → SbInfo → Type 0
RefusedBecause vfs sb mode e state =
    ((is_typed mode ≡ false) × (e ≡ einval) × (state ≡ sb))
    ⊎ ((is_typed mode ≡ true)
        × ((sb.nr_free_inodes ≡ 0) ⊎ (sb.nr_free_blocks ≡ 0))
        × (e ≡ enospc)
        × (state ≡ sb))
    ⊎ ((is_typed mode ≡ true)
        × AllSet sb.inode_bitmap 1 sb.inode_count
        × (e ≡ enospc)
        × (state ≡ sb))
    ⊎ ((is_typed mode ≡ true) × (vfs.new_inode ≡ none) × (e ≡ enomem) × TakesInode sb state)
    ⊎ ((is_typed mode ≡ true)
        × AllSet sb.block_bitmap 0 sb.block_count
        × (e ≡ enospc)
        × TakesInode sb state)

-- A failure, with its cause: the blocks are as before, and the counters still agree with the bitmaps.
pub record Refused (vfs : Vfs) (sb : SbInfo) (dir : Inode) (mode : ℕ) : Type 0 where
  pub reason : Errno
  pub state : SbInfo
  pub blocks : state.block_bitmap ≡ sb.block_bitmap
  pub same_bytes : state.data_blocks ≡ sb.data_blocks
  pub because : RefusedBecause vfs sb mode reason state
  pub counted : IsCounted sb → IsCounted state
  pub runs : osfs_new_inode vfs sb dir mode ≡ (err reason, state)

abbrev pub NewInode : Vfs → SbInfo → Inode → ℕ → Type 0
NewInode vfs sb dir mode = Made vfs sb dir mode ⊎ Refused vfs sb dir mode
