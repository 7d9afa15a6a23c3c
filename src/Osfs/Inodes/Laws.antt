-- ===== src/Osfs/Inodes/Laws.antt =====
-- lab4/dir.c: what `osfs_new_inode` takes, on every branch.
use ncku_operating_system.Base.{
  ℕ, ◌≡◌, ◌≢◌, refl, ◌⊎◌, inl, inr, true, false, not, ◌&&◌, ◌||◌, Option, none, some, leb, arith,
  ◌==◌, Bool-cases, update, dec32,
}
use ncku_operating_system.Osfs.Types.{
  Errno, einval, enospc, enomem, ok, err, OsfsInode, Inode, SbInfo, is_dir, is_reg, is_lnk,
}
use ncku_operating_system.Osfs.Alloc.{take_inode, osfs_get_free_inode}
use ncku_operating_system.Osfs.Alloc.Laws.{
  IsFirstClear, osfs_alloc_data_block_lem, osfs_get_free_inode_lem,
}
use ncku_operating_system.Osfs.Alloc.Accounting.{IsCounted, take_inode-IsCounted}
use ncku_operating_system.Osfs.Inodes.{
  Vfs, osfs_get_osfs_inode, new_inode_block, new_inode_entry, new_inode_number, osfs_new_inode,
}
use ncku_operating_system.Osfs.Inodes.Outcome.{
  with_entry, TakesInode, is_typed, RefusedBecause, Refused, NewInode,
}

counted-table :
    (sb : SbInfo) (table : ℕ → OsfsInode)
    → IsCounted sb
    → IsCounted (record sb { inode_table = table })
counted-table sb table c = record {
  blocks = c.blocks;
  inodes = c.inodes;
  blocks_fit = c.blocks_fit;
  inodes_fit = c.inodes_fit;
}

module _ (vfs : Vfs) (sb : SbInfo) (dir : Inode) (mode : ℕ)
    (typed : (not (is_dir mode) && not (is_reg mode) && not (is_lnk mode)) ≡ false)
    (room : (sb.nr_free_inodes == 0 || sb.nr_free_blocks == 0) ≡ false) where
  has_type : is_typed mode ≡ true
  has_type = ground arith

  module _ (n : ℕ) (f : IsFirstClear sb.inode_bitmap 1 sb.inode_count n)
      (e : osfs_get_free_inode sb ≡ (ok n, take_inode sb n)) where
    in_table : leb sb.inode_count n ≡ false
    in_table = ground (arith, f.below)

    not_zero : (n == 0) ≡ false
    not_zero = ground (arith, f.above)

    entry : osfs_get_osfs_inode (take_inode sb n) n ≡ some n
    unfolding osfs_get_osfs_inode
    entry = rw (not_zero, in_table) refl

    takes :
        (state : SbInfo)
        → state.inode_bitmap ≡ update sb.inode_bitmap n true
        → state.nr_free_inodes ≡ dec32 sb.nr_free_inodes
        → ((i : ℕ) → i ≢ n → state.inode_table i ≡ sb.inode_table i)
        → TakesInode sb state
    takes state bitmap counter others = record {
      n = n;
      inode_free = f;
      bitmap = bitmap;
      counter = counter;
      others = others;
    }

    no_memory : vfs.new_inode ≡ none → Refused vfs sb dir mode
    unfolding osfs_new_inode new_inode_number
    no_memory gone = record {
      reason = enomem;
      state = take_inode sb n;
      blocks = refl;
      same_bytes = refl;
      because =
          inr (
            inr (inr (inl (has_type, gone, refl, takes (take_inode sb n) refl refl λ i ne. refl))));
      counted = λ c. take_inode-IsCounted n c f.below f.clear;
      runs = rw (typed, room, e, osfs_new_inode, new_inode_number, in_table, gone) refl;
    }

    with_memory : (fresh : Inode) → vfs.new_inode ≡ some fresh → NewInode vfs sb dir mode
    unfolding osfs_new_inode new_inode_number new_inode_entry new_inode_block
    with_memory fresh some_fresh =
        elim (osfs_alloc_data_block_lem (with_entry vfs sb dir mode n fresh)) [
          | inl (b, g, taken) ↦ inl (record {
            n = n;
            b = b;
            fresh = fresh;
            inode_free = f;
            block_free = g;
            runs =
                rw
                  (
                    typed, room, e, osfs_new_inode, new_inode_number, in_table, some_fresh,
                    new_inode_entry, entry, taken,
                  )
                  refl;
          })
          | inr (full, none_left) ↦ inr (record {
            reason = enospc;
            state = with_entry vfs sb dir mode n fresh;
            blocks = refl;
            same_bytes = refl;
            because = inr (
                inr (
                  inr (
                    inr (
                      has_type,
                      full,
                      refl,
                      takes (with_entry vfs sb dir mode n fresh) refl refl λ i ne. ground arith,
                    ))));
            counted =
                λ c. counted-table (take_inode sb n) _ (take_inode-IsCounted n c f.below f.clear);
            runs =
                rw
                  (
                    typed, room, e, osfs_new_inode, new_inode_number, in_table, some_fresh,
                    new_inode_entry, entry, none_left,
                  )
                  refl;
          })
        ]

  after_checks : NewInode vfs sb dir mode
  unfolding osfs_new_inode new_inode_number
  after_checks = elim (osfs_get_free_inode_lem sb) [
    | inl (n, f, e) ↦ go n f e vfs.new_inode refl
    | inr (full, e) ↦ inr (record {
      reason = enospc;
      state = sb;
      blocks = refl;
      same_bytes = refl;
      because = inr (inr (inl (has_type, full, refl, refl)));
      counted = λ c. c;
      runs = rw (typed, room, e, osfs_new_inode) refl;
    })
  ]
    where
      go :
          (n : ℕ) (f : IsFirstClear sb.inode_bitmap 1 sb.inode_count n)
          → osfs_get_free_inode sb ≡ (ok n, take_inode sb n)
          → (o : Option Inode) → vfs.new_inode ≡ o
          → NewInode vfs sb dir mode
      go n f e none q = inr (no_memory n f e q)
      go n f e (some fresh) q = with_memory n f e fresh q

-- `osfs_new_inode` either takes the first free inode and the first free block, or fails for one of the
-- five causes, with the counters still right.
pub osfs_new_inode_lem :
    (vfs : Vfs) (sb : SbInfo) (dir : Inode) (mode : ℕ) → NewInode vfs sb dir mode
unfolding osfs_new_inode
osfs_new_inode_lem vfs sb dir mode =
    elim (Bool-cases (not (is_dir mode) && not (is_reg mode) && not (is_lnk mode))) [
      | inl untyped ↦
          inr
            (unchanged einval (inl (ground arith, refl, refl)) (rw (untyped, osfs_new_inode) refl))
      | inr typed ↦ elim (Bool-cases (sb.nr_free_inodes == 0 || sb.nr_free_blocks == 0)) [
        | inl full ↦ inr (
            unchanged enospc (inr (inl (ground arith, no_counter full, refl, refl)))
              (rw (typed, full, osfs_new_inode) refl))
        | inr room ↦ after_checks vfs sb dir mode typed room
      ]
    ]
  where
    no_counter :
        (sb.nr_free_inodes == 0 || sb.nr_free_blocks == 0) ≡ true
        → (sb.nr_free_inodes ≡ 0) ⊎ (sb.nr_free_blocks ≡ 0)
    no_counter full = elim (Bool-cases (sb.nr_free_inodes == 0)) [
      | inl zero ↦ inl (ground arith)
      | inr some_inode ↦ inr (ground arith)
    ]

    unchanged :
        (e : Errno)
        → RefusedBecause vfs sb mode e sb
        → osfs_new_inode vfs sb dir mode ≡ (err e, sb)
        → Refused vfs sb dir mode
    unchanged e because runs = record {
      reason = e;
      state = sb;
      blocks = refl;
      same_bytes = refl;
      because = because;
      counted = λ c. c;
      runs = runs;
    }
