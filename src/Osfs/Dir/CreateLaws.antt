-- ===== src/Osfs/Dir/CreateLaws.antt =====
-- lab4/dir.c: the outcomes of `osfs_create`, and the counters on all its paths.
use ncku_operating_system.Base.{
  ℕ, ◌<◌, ◌≡◌, refl, ◌⊎◌, inl, inr, true, false, Option, none, some, List, leb, arith, ◌==◌,
  Bool-cases, length,
}
use ncku_operating_system.Osfs.Types.{Errno, err, Inode, SbInfo, max_filename_len}
use ncku_operating_system.Osfs.Alloc.{osfs_alloc_data_block}
use ncku_operating_system.Osfs.Alloc.Laws.{osfs_alloc_data_block_lem}
use ncku_operating_system.Osfs.Alloc.Accounting.{
  IsCounted, take_block-IsCounted, take_inode-IsCounted,
}
use ncku_operating_system.Osfs.Inodes.{Vfs, osfs_new_inode}
use ncku_operating_system.Osfs.Inodes.Outcome.{RefusedBecause}
use ncku_operating_system.Osfs.Inodes.Laws.{osfs_new_inode_lem}
use ncku_operating_system.Osfs.Dir.Create.{CreateResult, create_inode, create_in_block, osfs_create}
use ncku_operating_system.Osfs.Dir.EntryLaws.{SameAccounts-IsCounted}
use ncku_operating_system.Osfs.Dir.Made.{Created, RolledBack, create_made}

-- `osfs_new_inode` has failed, for one of its causes: blocks and their bytes are as before, and nothing is
-- bound. Where the kernel has no memory for an inode, or no block is free, the first free inode stays
-- taken.
pub record NotMade (vfs : Vfs) (sb : SbInfo) (mode : ℕ) (r : CreateResult) : Type 0 where
  pub reason : Errno
  pub failed : r.result ≡ err reason
  pub because : RefusedBecause vfs sb mode reason r.sb
  pub block_bitmap : r.sb.block_bitmap ≡ sb.block_bitmap
  pub same_bytes : r.sb.data_blocks ≡ sb.data_blocks
  pub unbound : r.bound ≡ none
  pub counted : IsCounted r.sb

-- The outcomes of `osfs_create` in a directory with a block.
abbrev pub CreateOutcome : Vfs → SbInfo → (p mode : ℕ) → List ℕ → CreateResult → Type 0
CreateOutcome vfs sb p mode name r =
    Created vfs sb p name r ⊎ RolledBack sb p name r ⊎ NotMade vfs sb mode r

module _ (vfs : Vfs) (sb : SbInfo) (c : IsCounted sb) (p : ℕ) (dir : Inode) (name : List ℕ)
    (mode : ℕ) (in_use : sb.inode_bitmap p ≡ true) where
  create_inode_lem :
      CreateOutcome vfs sb p mode name
        (create_inode vfs p dir name mode (osfs_new_inode vfs sb dir mode))
  unfolding create_inode
  create_inode_lem = elim (osfs_new_inode_lem vfs sb dir mode) [
    | inl m ↦ elim (create_made vfs sb c p dir name mode m in_use) [
      | inl created ↦ inl created
      | inr back ↦ inr (inl back)
    ]
    | inr f ↦ inr (
        inr (
          rw f.runs (record {
            reason = f.reason;
            failed = refl;
            because = f.because;
            block_bitmap = f.blocks;
            same_bytes = f.same_bytes;
            unbound = refl;
            counted = f.counted c;
          })))
  ]

  outcome-IsCounted : (r : CreateResult) → CreateOutcome vfs sb p mode name r → IsCounted r.sb
  outcome-IsCounted r (inl made) = SameAccounts-IsCounted _ r.sb made.accounts (
      take_block-IsCounted made.b
        (take_inode-IsCounted made.n c made.inode_free.below made.inode_free.clear)
        made.block_free.below made.block_free.clear)
  outcome-IsCounted r (inr (inl back)) = SameAccounts-IsCounted sb r.sb back.accounts c
  outcome-IsCounted r (inr (inr not_made)) = not_made.counted

  create_inode-IsCounted :
      IsCounted (create_inode vfs p dir name mode (osfs_new_inode vfs sb dir mode)).sb
  create_inode-IsCounted = outcome-IsCounted _ create_inode_lem

-- In a directory that has a block and an inode in use, with a name of less than 255 bytes and right
-- counters, `osfs_create` has one of three outcomes. It succeeds: the first free inode and the first
-- free block are taken and counted, no entry had that name, the directory has the new entry behind its
-- others, and the new inode is empty with that block. Or the directory is full or has an entry of that
-- name: it fails with `-ENOSPC` or `-EEXIST`, and the bitmaps, counters and data blocks are as they
-- were. Or no inode could be made, and it fails: with `-EINVAL` when the mode is of no kind the file
-- system has, and with `-ENOSPC` when a counter of free inodes or blocks is 0 or no inode is free, all
-- as it was; with `-ENOMEM` when the kernel has no memory for an inode, and with `-ENOSPC` when no
-- block is free, and in these two cases the first free inode stays taken and counted. The blocks are
-- as they were, and the counters right.
pub osfs_create_lem :
    (vfs : Vfs) (sb : SbInfo) (dir : Inode) (name : List ℕ) (mode p : ℕ)
    → IsCounted sb
    → dir.i_private ≡ some p
    → sb.inode_bitmap p ≡ true
    → length name < max_filename_len
    → 0 < (sb.inode_table p).i_blocks
    → CreateOutcome vfs sb p mode name (osfs_create vfs sb dir name mode)
unfolding osfs_create
osfs_create_lem vfs sb dir name mode p c private in_use short some_blocks =
    let fits : leb max_filename_len (length name) ≡ false = ground arith in
    let has_block : ((sb.inode_table p).i_blocks == 0) ≡ false = ground arith in
    simp (private, osfs_create, fits, has_block) (create_inode_lem vfs sb c p dir name mode in_use)

module _ (vfs : Vfs) (sb : SbInfo) (dir : Inode) (name : List ℕ) (mode : ℕ) (c : IsCounted sb) where
  in_block-IsCounted :
      (p : ℕ)
      → sb.inode_bitmap p ≡ true
      → IsCounted (create_in_block vfs p dir name mode (osfs_alloc_data_block sb)).sb
  unfolding create_in_block
  in_block-IsCounted p in_use = elim (osfs_alloc_data_block_lem sb) [
    | inl (b, f, e) ↦
        let c' = take_block-IsCounted b c f.below f.clear in
        rw (e, create_in_block)
          (create_inode-IsCounted vfs _
            (record {
              blocks = c'.blocks;
              inodes = c'.inodes;
              blocks_fit = c'.blocks_fit;
              inodes_fit = c'.inodes_fit;
            })
            p _ name mode in_use)
    | inr (full, e) ↦ rw (e, create_in_block) c
  ]

  -- On every path `osfs_create` in a directory whose inode is in use keeps the counters of free blocks
  -- and inodes equal to the numbers of clear bits.
  pub osfs_create-IsCounted :
      ((p : ℕ) → dir.i_private ≡ some p → sb.inode_bitmap p ≡ true)
      → IsCounted (osfs_create vfs sb dir name mode).sb
  unfolding osfs_create
  osfs_create-IsCounted in_use = go dir.i_private refl
    where
      go : (o : Option ℕ) → dir.i_private ≡ o → IsCounted (osfs_create vfs sb dir name mode).sb
      go none e = simp (e, osfs_create) c
      go (some p) e = elim (Bool-cases (leb max_filename_len (length name))) [
        | inl long ↦ simp (e, osfs_create, long) c
        | inr short ↦ elim (Bool-cases ((sb.inode_table p).i_blocks == 0)) [
          | inl no_block ↦
              simp (e, osfs_create, short, no_block) (in_block-IsCounted p (in_use p e))
          | inr block ↦
              simp (e, osfs_create, short, block)
                (create_inode-IsCounted vfs sb c p dir name mode (in_use p e))
        ]
      ]
