-- ===== src/Osfs/Alloc.antt =====
-- lab4/inode.c: the two bitmap allocators and the release of a data block.
pub mod Laws
pub mod Accounting
use ncku_operating_system.Base.{
  ℕ, zero, suc, ◌-◌, Bool, true, false, Option, none, some, if◌then◌else◌, update, inc32, dec32,
}
use ncku_operating_system.Osfs.Types.{Errno, enospc, Result, ok, err, SbInfo}

-- The loop of both allocators: the first clear bit among `rounds` bits from `i` on.
unfoldable pub find_clear : (ℕ → Bool) → (rounds : ℕ) → (i : ℕ) → Option ℕ
find_clear bitmap zero i = none
find_clear bitmap (suc rounds) i = if bitmap i then find_clear bitmap rounds (suc i) else some i

-- The state in which `osfs_get_free_inode` returns `ino`.
abbrev pub take_inode : SbInfo → ℕ → SbInfo
take_inode sb ino = record sb {
  inode_bitmap = update sb.inode_bitmap ino true;
  nr_free_inodes = dec32 sb.nr_free_inodes;
}

unfoldable pub osfs_get_free_inode : SbInfo → Result ℕ × SbInfo
osfs_get_free_inode sb = elim (find_clear sb.inode_bitmap (sb.inode_count - 1) 1) [
  | some ino ↦ (ok ino, take_inode sb ino)
  | none ↦ (err enospc, sb)
]

abbrev pub take_block : SbInfo → ℕ → SbInfo
take_block sb i = record sb {
  block_bitmap = update sb.block_bitmap i true;
  nr_free_blocks = dec32 sb.nr_free_blocks;
}

unfoldable pub osfs_alloc_data_block : SbInfo → Result ℕ × SbInfo
osfs_alloc_data_block sb = elim (find_clear sb.block_bitmap sb.block_count 0) [
  | some i ↦ (ok i, take_block sb i)
  | none ↦ (err enospc, sb)
]

unfoldable pub osfs_free_data_block : SbInfo → ℕ → SbInfo
osfs_free_data_block sb block_no = record sb {
  block_bitmap = update sb.block_bitmap block_no false;
  nr_free_blocks = inc32 sb.nr_free_blocks;
}
