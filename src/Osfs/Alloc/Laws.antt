-- ===== src/Osfs/Alloc/Laws.antt =====
-- lab4/inode.c: what the allocators return, and the accounting of free blocks and inodes.
use ncku_operating_system.Base.{
  ℕ, zero, suc, ◌+◌, ◌-◌, ◌≤◌, ◌<◌, ◌≡◌, refl, ◌⊎◌, inl, inr, Bool, true, false, Option, none, some,
  arith, ◌==◌, Bool-cases, ==_iff,
}
use ncku_operating_system.Osfs.Types.{enospc, ok, err, SbInfo}
use ncku_operating_system.Osfs.Alloc.{
  find_clear, take_inode, osfs_get_free_inode, take_block, osfs_alloc_data_block,
}

-- `r` is the first clear bit of `bitmap` from `lo` on, and lies below `hi`.
pub record IsFirstClear (bitmap : ℕ → Bool) (lo hi r : ℕ) : Type 0 where
  pub above : lo ≤ r
  pub below : r < hi
  pub clear : bitmap r ≡ false
  pub first : (j : ℕ) → lo ≤ j → j < r → bitmap j ≡ true

-- All bits of `bitmap` from `lo` to `hi` are set.
abbrev pub AllSet : (ℕ → Bool) → ℕ → ℕ → Type 0
AllSet bitmap lo hi = (j : ℕ) → lo ≤ j → j < hi → bitmap j ≡ true

-- The two outcomes of the search.
abbrev pub Search : (ℕ → Bool) → ℕ → ℕ → Option ℕ → Type 0
Search bitmap lo hi none = AllSet bitmap lo hi
Search bitmap lo hi (some r) = IsFirstClear bitmap lo hi r

Search-suc :
    (bitmap : ℕ → Bool) (lo hi : ℕ) (o : Option ℕ)
    → bitmap lo ≡ true
    → Search bitmap (suc lo) hi o
    → Search bitmap lo hi o
Search-suc bitmap lo hi none e s = λ j l h. elim (Bool-cases (lo == j)) [
  | inl same ↦ ground (arith, ==_iff lo j)
  | inr other ↦ s j (ground arith) h
]
Search-suc bitmap lo hi (some r) e s = record {
  above = omega (arith, s.above);
  below = s.below;
  clear = s.clear;
  first = λ j l h. elim (Bool-cases (lo == j)) [
    | inl same ↦ ground (arith, ==_iff lo j)
    | inr other ↦ s.first j (ground arith) h
  ];
}

pub find_clear-Search :
    (bitmap : ℕ → Bool) (rounds lo hi : ℕ)
    → lo + rounds ≡ hi
    → Search bitmap lo hi (find_clear bitmap rounds lo)
unfolding find_clear
find_clear-Search bitmap zero lo hi e = λ j l h. absurd (omega arith)
find_clear-Search bitmap (suc rounds) lo hi e = elim (Bool-cases (bitmap lo)) [
  | inl set ↦
      rw set
        (Search-suc bitmap lo hi _ set (find_clear-Search bitmap rounds (suc lo) hi (omega arith)))
  | inr clear ↦ rw clear (record {
    above = omega arith;
    below = omega arith;
    clear = clear;
    first = λ j l h. absurd (omega arith);
  })
]

-- The result and the new state of `osfs_alloc_data_block`, on both branches.
abbrev pub BlockAlloc : SbInfo → Type 0
BlockAlloc sb =
    ((i : ℕ) × IsFirstClear sb.block_bitmap 0 sb.block_count i
      × (osfs_alloc_data_block sb ≡ (ok i, take_block sb i)))
    ⊎ (AllSet sb.block_bitmap 0 sb.block_count × (osfs_alloc_data_block sb ≡ (err enospc, sb)))

-- The allocator of data blocks takes the first clear bit of the bitmap and counts it, or returns
-- `-ENOSPC` in an unchanged state when all the bits are set.
pub osfs_alloc_data_block_lem : (sb : SbInfo) → BlockAlloc sb
unfolding osfs_alloc_data_block
osfs_alloc_data_block_lem sb =
    go _ refl (find_clear-Search sb.block_bitmap sb.block_count 0 sb.block_count (omega arith))
  where
    go :
        (o : Option ℕ)
        → find_clear sb.block_bitmap sb.block_count 0 ≡ o
        → Search sb.block_bitmap 0 sb.block_count o
        → BlockAlloc sb
    go none e s = inr (s, rw (e, osfs_alloc_data_block))
    go (some i) e s = inl (i, s, rw (e, osfs_alloc_data_block))

-- The result and the new state of `osfs_get_free_inode`, on both branches.
abbrev pub InodeAlloc : SbInfo → Type 0
InodeAlloc sb =
    ((i : ℕ) × IsFirstClear sb.inode_bitmap 1 sb.inode_count i
      × (osfs_get_free_inode sb ≡ (ok i, take_inode sb i)))
    ⊎ (AllSet sb.inode_bitmap 1 sb.inode_count × (osfs_get_free_inode sb ≡ (err enospc, sb)))

inode-Search : (bitmap : ℕ → Bool) (n : ℕ) → Search bitmap 1 n (find_clear bitmap (n - 1) 1)
unfolding find_clear
inode-Search bitmap zero = λ j l h. absurd (omega arith)
inode-Search bitmap (suc n) = find_clear-Search bitmap (suc n - 1) 1 (suc n) (omega arith)

-- The allocator of inodes takes the first clear bit from bit 1 on and counts it, or returns `-ENOSPC`
-- in an unchanged state when all those bits are set.
pub osfs_get_free_inode_lem : (sb : SbInfo) → InodeAlloc sb
unfolding osfs_get_free_inode
osfs_get_free_inode_lem sb = go _ refl (inode-Search sb.inode_bitmap sb.inode_count)
  where
    go :
        (o : Option ℕ)
        → find_clear sb.inode_bitmap (sb.inode_count - 1) 1 ≡ o
        → Search sb.inode_bitmap 1 sb.inode_count o
        → InodeAlloc sb
    go none e s = inr (s, rw (e, osfs_get_free_inode))
    go (some i) e s = inl (i, s, rw (e, osfs_get_free_inode))
