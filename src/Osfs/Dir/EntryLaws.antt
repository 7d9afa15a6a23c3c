-- ===== src/Osfs/Dir/EntryLaws.antt =====
-- lab4/dir.c: the outcomes of `osfs_add_dir_entry`, and the states around it in `osfs_create`.
use ncku_operating_system.Base.{
  ℕ, ◌≤◌, ◌<◌, ◌≡◌, ◌≢◌, refl, ◌⊎◌, inl, inr, true, false, Option, none, some, List, leb, arith,
  ◌==◌, Bool-cases, update, add32, ==_iff, ap, ◌∙◌,
}
use ncku_operating_system.Osfs.Types.{
  Bytes, Errno, enospc, eexist, ok, err, OsfsInode, SbInfo, max_dir_entries, dir_entry_size,
}
use ncku_operating_system.Osfs.Alloc.{osfs_free_data_block}
use ncku_operating_system.Osfs.Alloc.Accounting.{IsCounted}
use ncku_operating_system.Osfs.Extent.{block_address}
use ncku_operating_system.Osfs.Inodes.{Vfs}
use ncku_operating_system.Osfs.Dir.{dir_entry_count, find_entry, put_entry, osfs_add_dir_entry}
use ncku_operating_system.Osfs.Dir.Create.{set_node, release_inode, release_block, touched}

-- The bitmaps and the counters are the same.
pub record SameAccounts (sb sb' : SbInfo) : Type 0 where
  pub block_bitmap : sb'.block_bitmap ≡ sb.block_bitmap
  pub inode_bitmap : sb'.inode_bitmap ≡ sb.inode_bitmap
  pub free_blocks : sb'.nr_free_blocks ≡ sb.nr_free_blocks
  pub free_inodes : sb'.nr_free_inodes ≡ sb.nr_free_inodes
  pub block_count : sb'.block_count ≡ sb.block_count
  pub inode_count : sb'.inode_count ≡ sb.inode_count

pub SameAccounts-IsCounted : (sb sb' : SbInfo) → SameAccounts sb sb' → IsCounted sb → IsCounted sb'
SameAccounts-IsCounted sb sb' s c = record {
  blocks = simp (s.free_blocks, s.block_bitmap, s.block_count) (c.blocks);
  inodes = simp (s.free_inodes, s.inode_bitmap, s.inode_count) (c.inodes);
  blocks_fit = simp (s.block_count) (c.blocks_fit);
  inodes_fit = simp (s.inode_count) (c.inodes_fit);
}

-- The state after `osfs_add_dir_entry` has added an entry.
abbrev pub added_state : SbInfo → (p ino : ℕ) → List ℕ → SbInfo
added_state sb p ino name =
    let node = sb.inode_table p in
    record sb {
      data_blocks =
          put_entry sb.data_blocks (block_address node.i_block) (dir_entry_count node) name ino;
      inode_table =
          update sb.inode_table p (record node { i_size = add32 node.i_size dir_entry_size });
    }

-- The outcome of the search for an entry of that name in a directory.
abbrev pub entry_in : Bytes → OsfsInode → List ℕ → Option ℕ
entry_in m node name = find_entry m (block_address node.i_block) 0 (dir_entry_count node) name

abbrev pub entry_of : SbInfo → (p : ℕ) → List ℕ → Option ℕ
entry_of sb p name = entry_in sb.data_blocks (sb.inode_table p) name

-- Why an entry cannot be added: the directory is full, or has an entry of that name.
abbrev pub IsRejectedBy : Bytes → OsfsInode → List ℕ → Errno → Type 0
IsRejectedBy m node name e =
    ((e ≡ enospc) × (max_dir_entries ≤ dir_entry_count node))
    ⊎ ((e ≡ eexist) × (i : ℕ) × (entry_in m node name ≡ some i))

abbrev pub IsRejected : SbInfo → (p : ℕ) → List ℕ → Errno → Type 0
IsRejected sb p name e = IsRejectedBy sb.data_blocks (sb.inode_table p) name e

pub osfs_add_dir_entry_lem :
    (sb : SbInfo) (p ino : ℕ) (name : List ℕ)
    → ((dir_entry_count (sb.inode_table p) < max_dir_entries)
        × (entry_of sb p name ≡ none)
        × (osfs_add_dir_entry sb p ino name ≡ (ok tt, added_state sb p ino name)))
      ⊎ ((e : Errno) × IsRejected sb p name e × (osfs_add_dir_entry sb p ino name ≡ (err e, sb)))
unfolding osfs_add_dir_entry
osfs_add_dir_entry_lem sb p ino name =
    elim (Bool-cases (leb max_dir_entries (dir_entry_count (sb.inode_table p)))) [
      | inl full ↦ inr (enospc, inl (refl, ground arith), rw full refl)
      | inr room ↦ go room (entry_of sb p name) refl
    ]
  where
    go :
        leb max_dir_entries (dir_entry_count (sb.inode_table p)) ≡ false
        → (o : Option ℕ) → entry_of sb p name ≡ o
        → ((dir_entry_count (sb.inode_table p) < max_dir_entries)
            × (entry_of sb p name ≡ none)
            × (osfs_add_dir_entry sb p ino name ≡ (ok tt, added_state sb p ino name)))
          ⊎ ((e : Errno) × IsRejected sb p name e
              × (osfs_add_dir_entry sb p ino name ≡ (err e, sb)))
    go room none e = inl (ground arith, e, rw (room, e) refl)
    go room (some i) e = inr (eexist, inr (refl, i, e), rw (room, e) refl)

pub update_same : {A : Type 0} (f : ℕ → A) (i : ℕ) (v : A) → update f i v i ≡ v
update_same f i v = let same : (i == i) ≡ true = (==_iff i i).1 refl in rw same refl

pub update_other : {A : Type 0} (f : ℕ → A) (i j : ℕ) (v : A) → i ≢ j → update f i v j ≡ f j
update_other f i j v ne = elim (Bool-cases (i == j)) [
  | inl same ↦ absurd (ne ((==_iff i j).0 same))
  | inr other ↦ rw other refl
]

module _ (vfs : Vfs) (s : SbInfo) (p q : ℕ) (name : List ℕ) where
  -- The state in which `osfs_create` returns.
  abbrev pub entered_state : SbInfo
  entered_state =
      let added = added_state s p q name in set_node added p (touched vfs (added.inode_table p))

  pub entered_parent :
      entered_state.inode_table p
      ≡ touched vfs
          (record (s.inode_table p) { i_size = add32 (s.inode_table p).i_size dir_entry_size })
  entered_parent =
      update_same (added_state s p q name).inode_table p _
      ∙ ap (touched vfs) (update_same s.inode_table p _)

  pub entered_other : p ≢ q → entered_state.inode_table q ≡ s.inode_table q
  entered_other ne =
      update_other (added_state s p q name).inode_table p q _ ne
      ∙ update_other s.inode_table p q _ ne

pub released_bytes :
    (s : SbInfo) (node : OsfsInode) (n : ℕ)
    → (release_inode (release_block s node) n).data_blocks ≡ s.data_blocks
unfolding osfs_free_data_block
released_bytes s node n = elim (Bool-cases (node.i_blocks == 0)) [
  | inl no_block ↦ rw no_block refl
  | inr block ↦ rw block refl
]
