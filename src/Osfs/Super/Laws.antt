-- ===== src/Osfs/Super/Laws.antt =====
-- lab4/super.c and lab4/osfs_init.c: when mounting succeeds, the state after it, and the memory when
-- it fails.
use ncku_operating_system.Base.{
  ◌+◌, ◌≡◌, refl, ◌⊎◌, inl, inr, Bool, true, false, Bool-cases, Option, none, some, arith,
  count_set,
}
use ncku_operating_system.Osfs.Types.{enomem, Result, ok, err, Inode, SbInfo, root_inode}
use ncku_operating_system.Osfs.Alloc.Accounting.{IsCounted}
use ncku_operating_system.Osfs.Inodes.{init_owner, osfs_get_osfs_inode}
use ncku_operating_system.Osfs.Super.{
  SuperBlock, Mount, fresh_sb, fill_root, fill_inode, root_set_up, osfs_fill_super,
  osfs_kill_superblock,
}

-- A mounted file system: right counters, the root directory in entry 1, in use and empty.
pub record IsMounted (s : SuperBlock) : Type 0 where
  pub sb : SbInfo
  pub info : s.s_fs_info ≡ some sb
  pub counted : IsCounted sb
  pub root : Inode
  pub has_root : s.s_root ≡ some root
  pub root_entry : root.i_private ≡ some root_inode
  pub root_used : sb.inode_bitmap root_inode ≡ true
  pub root_empty : (sb.inode_table root_inode).i_size ≡ 0
  pub no_block : (sb.inode_table root_inode).i_blocks ≡ 0

abbrev pub owned_root : Mount → Inode → Inode
owned_root k root =
    init_owner k.vfs false none root.i_mode
      (record root { i_private = some root_inode; i_size = 0 })

-- The kernel has an inode for the root directory, and `d_make_root` answers `b` for it.
abbrev pub MakesRoot : Mount → Bool → Type 0
MakesRoot k b =
    (fresh : Inode) × (k.vfs.new_inode ≡ some fresh)
    × (k.d_make_root (owned_root k (root_set_up k.vfs fresh)) ≡ b)

-- The outcomes of mounting, each with its cause and, when the mount fails, with the release of the
-- superblock by the kernel.
abbrev pub MountOutcome : Mount → SuperBlock → Result (Unit {0}) × SuperBlock → Type 0
MountOutcome k s (ok _, s') =
    (k.vmalloc ≡ true) × MakesRoot k true × IsMounted s' × (s'.freed ≡ s.freed)
MountOutcome k s (err e, s') =
    (e ≡ enomem)
    × (((k.vmalloc ≡ false) × (s' ≡ s))
        ⊎ ((k.vmalloc ≡ true)
            × ((k.vfs.new_inode ≡ none) ⊎ MakesRoot k false)
            × (s'.freed ≡ s.freed + 1)
            × ((osfs_kill_superblock s').freed ≡ s.freed + 2)))

module _ (k : Mount) (s : SuperBlock) where
  abbrev started : SuperBlock
  started = record s { s_magic = fresh_sb.magic; s_fs_info = some fresh_sb }

  module _ (memory : k.vmalloc ≡ true) where
    root_lem :
        (fresh : Inode)
        → k.vfs.new_inode ≡ some fresh
        → MountOutcome k s (fill_root k started fresh_sb root_inode (root_set_up k.vfs fresh))
    unfolding fill_root count_set osfs_kill_superblock
    root_lem fresh made = go (k.d_make_root (owned_root k (root_set_up k.vfs fresh))) refl
      where
        go :
            (b : Bool)
            → k.d_make_root (owned_root k (root_set_up k.vfs fresh)) ≡ b
            → MountOutcome k s (fill_root k started fresh_sb root_inode (root_set_up k.vfs fresh))
        go true e =
            simp (e, fill_root)
              (
                memory,
                (fresh, made, e),
                record {
                  sb = _;
                  info = refl;
                  counted = record {
                    blocks = refl;
                    inodes = refl;
                    blocks_fit = omega arith;
                    inodes_fit = omega arith;
                  };
                  root = _;
                  has_root = refl;
                  root_entry = refl;
                  root_used = refl;
                  root_empty = refl;
                  no_block = refl;
                },
                refl,
              )
        go false e =
            simp (e, fill_root) (refl, inr (memory, inr (fresh, made, e), refl, omega arith))

    inode_lem : MountOutcome k s (fill_inode k started fresh_sb)
    unfolding fill_inode osfs_get_osfs_inode osfs_kill_superblock
    inode_lem = go k.vfs.new_inode refl
      where
        go :
            (o : Option Inode)
            → k.vfs.new_inode ≡ o
            → MountOutcome k s (fill_inode k started fresh_sb)
        go none e = simp (e, fill_inode) (refl, inr (memory, inl refl, refl, omega arith))
        go (some fresh) e = simp (e, fill_inode) (root_lem fresh e)

  -- `osfs_fill_super` mounts an empty file system, with right counters and the root directory in entry
  -- 1, and frees nothing, when `vmalloc` has memory, `new_inode` an inode and `d_make_root` makes a
  -- dentry of it. Otherwise it fails with `-ENOMEM`: without memory of `vmalloc` in the superblock as
  -- it was, and without an inode or a dentry after it has freed the memory once; the kernel's
  -- `osfs_kill_superblock` then frees that memory again.
  pub osfs_fill_super_lem : MountOutcome k s (osfs_fill_super k s)
  unfolding osfs_fill_super
  osfs_fill_super_lem = elim (Bool-cases k.vmalloc) [
    | inl memory ↦ simp (memory, osfs_fill_super) (inode_lem memory)
    | inr no_memory ↦ simp (no_memory, osfs_fill_super) (refl, inl (refl, refl))
  ]
