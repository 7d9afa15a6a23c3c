-- ===== src/Osfs/Dir/Made.antt =====
-- lab4/dir.c: `osfs_create` from a new inode on: the new entry, or the roll-back.
use ncku_operating_system.Base.{
  ℕ, ◌<◌, ◌≡◌, ◌≢◌, refl, ◌⊎◌, inl, inr, true, false, none, some, List, arith, ◌==◌, Bool-cases,
  inc32, dec32, add32, ==_iff, ap, ◌∙◌, sym, inc32-dec32, subst,
}
use ncku_operating_system.Osfs.Types.{
  Errno, ok, err, Inode, SbInfo, max_dir_entries, dir_entry_size,
}
use ncku_operating_system.Osfs.Alloc.{take_inode, take_block, osfs_free_data_block}
use ncku_operating_system.Osfs.Alloc.Laws.{IsFirstClear}
use ncku_operating_system.Osfs.Alloc.Accounting.{IsCounted, update_undo}
use ncku_operating_system.Osfs.Extent.{block_address}
use ncku_operating_system.Osfs.Inodes.{Vfs, init_owner, osfs_new_inode}
use ncku_operating_system.Osfs.Inodes.Outcome.{made_inode, made_state, Made}
use ncku_operating_system.Osfs.Dir.{dir_entry_count, put_entry, osfs_add_dir_entry}
use ncku_operating_system.Osfs.Dir.Create.{
  CreateResult, set_node, release_inode, release_block, create_entered, filled_node, filled_inode,
  create_filled, create_node, create_inode,
}
use ncku_operating_system.Osfs.Dir.EntryLaws.{
  SameAccounts, added_state, entry_in, entry_of, IsRejectedBy, IsRejected, osfs_add_dir_entry_lem,
  update_same, entered_state, entered_parent, entered_other, released_bytes,
}

-- What a successful `osfs_create` has done to the state `sb` in which the directory has its block: inode
-- `n` and block `b`, the first free ones, are taken and counted; the directory has one more entry.
pub record Created (vfs : Vfs) (sb : SbInfo) (p : ℕ) (name : List ℕ) (r : CreateResult)
    : Type 0 where
  pub n : ℕ
  pub b : ℕ
  pub inode_free : IsFirstClear sb.inode_bitmap 1 sb.inode_count n
  pub block_free : IsFirstClear sb.block_bitmap 0 sb.block_count b
  pub done : r.result ≡ ok tt
  pub accounts : SameAccounts (take_block (take_inode sb n) b) r.sb
  pub entry :
      (entry_of sb p name ≡ none)
      × (dir_entry_count (sb.inode_table p) < max_dir_entries)
      × (r.sb.data_blocks
          ≡ put_entry sb.data_blocks
              (block_address (sb.inode_table p).i_block)
              (dir_entry_count (sb.inode_table p))
              name
              n)
      × ((r.sb.inode_table p).i_size ≡ add32 (sb.inode_table p).i_size dir_entry_size)
      × ((r.sb.inode_table p).i_block ≡ (sb.inode_table p).i_block)
      × ((r.sb.inode_table n).i_block ≡ b)
      × ((r.sb.inode_table n).i_size ≡ 0)
      × ((r.sb.inode_table n).i_blocks ≡ 1)

-- What a roll-back leaves: the bitmaps, the counters and the data blocks as they were.
pub record RolledBack (sb : SbInfo) (p : ℕ) (name : List ℕ) (r : CreateResult) : Type 0 where
  pub reason : Errno
  pub failed : r.result ≡ err reason
  pub accounts : SameAccounts sb r.sb
  pub same_bytes : r.sb.data_blocks ≡ sb.data_blocks
  pub unbound : r.bound ≡ none
  pub rejected : IsRejected sb p name reason

module _ (vfs : Vfs) (sb : SbInfo) (c : IsCounted sb) (p : ℕ) (dir : Inode) (name : List ℕ)
    (mode : ℕ) (m : Made vfs sb dir mode) (in_use : sb.inode_bitmap p ≡ true) where
  -- The inode, and the state before the entry of the directory is added.
  abbrev inode : Inode
  inode = init_owner vfs true (some dir) mode (made_inode vfs dir mode m.n m.fresh)

  abbrev counted : SbInfo
  counted =
      let s = made_state vfs sb dir mode m.n m.b m.fresh in
      record s { nr_free_inodes = inc32 s.nr_free_inodes }

  abbrev cleared : SbInfo
  cleared =
      set_node counted m.n
        (record (counted.inode_table m.n) { i_block = 0; i_size = 0; i_blocks = 0 })

  abbrev filled : SbInfo
  filled = set_node cleared m.n (filled_node vfs m.b inode (cleared.inode_table m.n))

  same_index : (m.n == m.n) ≡ true
  same_index = (==_iff m.n m.n).1 refl

  filled_runs :
      create_node vfs p m.n dir inode name counted
      ≡ create_filled vfs p m.n m.b dir inode name cleared
  unfolding create_node
  filled_runs = elim (Bool-cases (m.b == 0)) [
    | inl zero_block ↦ rw (same_index, zero_block) refl
    | inr other ↦ rw (same_index, other) refl
  ]

  counted_back : SameAccounts (take_block (take_inode sb m.n) m.b) filled
  counted_back = record {
    block_bitmap = refl;
    inode_bitmap = refl;
    free_blocks = refl;
    free_inodes = inc32-dec32 (dec32 sb.nr_free_inodes) (omega arith);
    block_count = refl;
    inode_count = refl;
  }

  roll_back : SameAccounts sb (release_inode (release_block filled (filled.inode_table m.n)) m.n)
  unfolding osfs_free_data_block
  roll_back = rw same_index (record {
    block_bitmap = update_undo sb.block_bitmap m.b m.block_free.clear;
    inode_bitmap = update_undo sb.inode_bitmap m.n m.inode_free.clear;
    free_blocks = inc32-dec32 sb.nr_free_blocks (omega (arith, c.blocks, c.blocks_fit));
    free_inodes = omega (arith, c.inodes, c.inodes_fit);
    block_count = refl;
    inode_count = refl;
  })

  other_node : p ≢ m.n
  other_node same = cc (ap sb.inode_bitmap same, in_use, m.inode_free.clear)

  other_index : (m.n == p) ≡ false
  other_index = elim (Bool-cases (m.n == p)) [
    | inl same ↦ absurd (other_node (sym ((==_iff m.n p).0 same)))
    | inr other ↦ other
  ]

  same_parent : filled.inode_table p ≡ sb.inode_table p
  same_parent = rw other_index refl

  new_entry :
      (entered_state vfs filled p m.n name).inode_table m.n
      ≡ filled_node vfs m.b inode (cleared.inode_table m.n)
  new_entry = entered_other vfs filled p m.n name other_node ∙ update_same cleared.inode_table m.n _

  abbrev pub Outcome : Type 0
  Outcome =
      Created vfs sb p name (create_inode vfs p dir name mode (osfs_new_inode vfs sb dir mode))
      ⊎ RolledBack sb p name (create_inode vfs p dir name mode (osfs_new_inode vfs sb dir mode))

  runs_to_entry :
      create_inode vfs p dir name mode (osfs_new_inode vfs sb dir mode)
      ≡ create_entered vfs p m.n dir
          (filled_inode (filled_node vfs m.b inode (cleared.inode_table m.n)) inode)
          (osfs_add_dir_entry filled p m.n name)
  unfolding create_inode create_filled
  runs_to_entry = rw m.runs filled_runs

  added :
      dir_entry_count (filled.inode_table p) < max_dir_entries
      → entry_of filled p name ≡ none
      → osfs_add_dir_entry filled p m.n name ≡ (ok tt, added_state filled p m.n name)
      → Outcome
  unfolding create_entered
  added room fresh e = inl (
      rw (runs_to_entry, e, create_entered)
        (record {
          n = m.n;
          b = m.b;
          inode_free = m.inode_free;
          block_free = m.block_free;
          done = refl;
          accounts = record {
            block_bitmap = refl;
            inode_bitmap = refl;
            free_blocks = refl;
            free_inodes = counted_back.free_inodes;
            block_count = refl;
            inode_count = refl;
          };
          entry = (
            subst (λ node. entry_in sb.data_blocks node name ≡ none) same_parent fresh,
            subst (λ node. dir_entry_count node < max_dir_entries) same_parent room,
            ap
                (λ node.
                  put_entry sb.data_blocks (block_address node.i_block) (dir_entry_count node) name
                    m.n)
                same_parent,
            ap (λ node. node.i_size) (entered_parent vfs filled p m.n name)
                ∙ ap (λ node. add32 node.i_size dir_entry_size) same_parent,
            ap (λ node. node.i_block) (entered_parent vfs filled p m.n name)
                ∙ ap (λ node. node.i_block) same_parent,
            ap (λ node. node.i_block) new_entry,
            ap (λ node. node.i_size) new_entry,
            ap (λ node. node.i_blocks) new_entry,
          );
        }))

  rejected :
      (e : Errno)
      → IsRejected filled p name e
      → osfs_add_dir_entry filled p m.n name ≡ (err e, filled)
      → Outcome
  unfolding create_entered
  rejected reason why e = inr (
      rw (runs_to_entry, e, create_entered)
        (record {
          reason = reason;
          failed = refl;
          accounts = roll_back;
          same_bytes = released_bytes filled (filled.inode_table m.n) m.n;
          unbound = refl;
          rejected = subst (λ node. IsRejectedBy sb.data_blocks node name reason) same_parent why;
        }))

  pub create_made : Outcome
  create_made = elim (osfs_add_dir_entry_lem filled p m.n name) [
    | inl (room, fresh, e) ↦ added room fresh e
    | inr (reason, why, e) ↦ rejected reason why e
  ]
