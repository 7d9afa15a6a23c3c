-- ===== src/Osfs/Alloc/Accounting.antt =====
-- lab4/inode.c: the free counters agree with the bitmaps, and taking and releasing keep that.
use ncku_operating_system.Base.{
  ℕ, ◌+◌, ◌<◌, ◌≡◌, refl, inl, inr, Bool, true, false, arith, ◌==◌, Bool-cases, update, u32_mod,
  fun_ext, ==_iff, ap, sym, ◌∙◌, inc32-dec32,
}
use ncku_operating_system.Base.{count_set, count_set-update, count_set-lt}
use ncku_operating_system.Osfs.Types.{Result, ok, SbInfo}
use ncku_operating_system.Osfs.Alloc.{
  take_inode, osfs_get_free_inode, take_block, osfs_alloc_data_block, osfs_free_data_block,
}
use ncku_operating_system.Osfs.Alloc.Laws.{osfs_alloc_data_block_lem, osfs_get_free_inode_lem}

-- Each free counter is the number of clear bits of its bitmap.
pub record IsCounted (sb : SbInfo) : Type 0 where
  pub blocks : sb.nr_free_blocks + count_set sb.block_bitmap sb.block_count ≡ sb.block_count
  pub inodes : sb.nr_free_inodes + count_set sb.inode_bitmap sb.inode_count ≡ sb.inode_count
  pub blocks_fit : sb.block_count < u32_mod
  pub inodes_fit : sb.inode_count < u32_mod

pub take_block-IsCounted :
    {sb : SbInfo} (i : ℕ)
    → IsCounted sb
    → i < sb.block_count
    → sb.block_bitmap i ≡ false
    → IsCounted (take_block sb i)
take_block-IsCounted {sb} i c h e = record {
  blocks = ground (
    arith,
    count_set-update sb.block_bitmap sb.block_count i true h,
    count_set-lt sb.block_bitmap sb.block_count i h e,
    c.blocks,
  );
  inodes = c.inodes;
  blocks_fit = c.blocks_fit;
  inodes_fit = c.inodes_fit;
}

pub take_inode-IsCounted :
    {sb : SbInfo} (i : ℕ)
    → IsCounted sb
    → i < sb.inode_count
    → sb.inode_bitmap i ≡ false
    → IsCounted (take_inode sb i)
take_inode-IsCounted {sb} i c h e = record {
  blocks = c.blocks;
  inodes = ground (
    arith,
    count_set-update sb.inode_bitmap sb.inode_count i true h,
    count_set-lt sb.inode_bitmap sb.inode_count i h e,
    c.inodes,
  );
  blocks_fit = c.blocks_fit;
  inodes_fit = c.inodes_fit;
}

-- Releasing a block that is in use keeps the count.
pub osfs_free_data_block-IsCounted :
    {sb : SbInfo} (i : ℕ)
    → IsCounted sb
    → i < sb.block_count
    → sb.block_bitmap i ≡ true
    → IsCounted (osfs_free_data_block sb i)
unfolding osfs_free_data_block
osfs_free_data_block-IsCounted {sb} i c h e = record {
  blocks = ground (arith, count_set-update sb.block_bitmap sb.block_count i false h, c.blocks);
  inodes = c.inodes;
  blocks_fit = c.blocks_fit;
  inodes_fit = c.inodes_fit;
}

-- The allocator of data blocks keeps the counters of free blocks and inodes equal to the numbers of
-- clear bits, whether it succeeds or fails.
pub osfs_alloc_data_block-IsCounted :
    (sb : SbInfo) → IsCounted sb → IsCounted (osfs_alloc_data_block sb).1
osfs_alloc_data_block-IsCounted sb c = elim (osfs_alloc_data_block_lem sb) [
  | inl (i, f, e) ↦ rw e (take_block-IsCounted i c f.below f.clear)
  | inr (f, e) ↦ rw e c
]

pub osfs_get_free_inode-IsCounted :
    (sb : SbInfo) → IsCounted sb → IsCounted (osfs_get_free_inode sb).1
osfs_get_free_inode-IsCounted sb c = elim (osfs_get_free_inode_lem sb) [
  | inl (i, f, e) ↦ rw e (take_inode-IsCounted i c f.below f.clear)
  | inr (f, e) ↦ rw e c
]

-- Setting a clear bit and clearing it again is no change.
pub update_undo :
    (bitmap : ℕ → Bool) (i : ℕ) → bitmap i ≡ false → update (update bitmap i true) i false ≡ bitmap
update_undo bitmap i e = fun_ext λ j. elim (Bool-cases (i == j)) [
  | inl same ↦ ground (arith, ap bitmap ((==_iff i j).0 same))
  | inr other ↦ rw other refl
]

pub free-take :
    (sb : SbInfo) (i : ℕ)
    → sb.nr_free_blocks < u32_mod
    → sb.block_bitmap i ≡ false
    → osfs_free_data_block (take_block sb i) i ≡ sb
unfolding osfs_free_data_block
free-take sb i h e = λ k. record sb {
  block_bitmap = update_undo sb.block_bitmap i e k;
  nr_free_blocks = inc32-dec32 sb.nr_free_blocks h k;
}

ok-injective : {A : Type 0} {a b : A} → ◌≡◌ {A = Result A} (ok a) (ok b) → a ≡ b
ok-injective e = cc

-- With a counter of free blocks below 2 ^ 32, a data block that is allocated and freed leaves the
-- whole state as it was.
pub free-alloc :
    (sb : SbInfo) {i : ℕ}
    → sb.nr_free_blocks < u32_mod
    → (osfs_alloc_data_block sb).0 ≡ ok i
    → osfs_free_data_block (osfs_alloc_data_block sb).1 i ≡ sb
free-alloc sb {i} h e = elim (osfs_alloc_data_block_lem sb) [
  | inl (j, f, taken) ↦
      let same : j ≡ i = ok-injective (sym (ap (λ p. p.0) taken) ∙ e) in
      rw (taken, ← same) (free-take sb j h f.clear)
  | inr (f, full) ↦ cc (ap (λ p. p.0) full, e)
]
