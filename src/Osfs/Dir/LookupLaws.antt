-- ===== src/Osfs/Dir/LookupLaws.antt =====
-- lab4/dir.c: `osfs_lookup` after `osfs_create`.
use ncku_operating_system.Base.{
  ℕ, suc, ◌<◌, ◌≡◌, refl, inl, inr, true, false, none, some, List, arith, length, u32_mod, leb,
  ◌==◌, ap, ◌∙◌,
}
use ncku_operating_system.Osfs.Types.{Bytes, ok, Inode, SbInfo, max_filename_len}
use ncku_operating_system.Osfs.Alloc.Accounting.{IsCounted}
use ncku_operating_system.Osfs.Extent.{block_address}
use ncku_operating_system.Osfs.Inodes.{Vfs, osfs_get_osfs_inode, loaded, osfs_iget}
use ncku_operating_system.Osfs.Dir.{
  strlen, text_limit, entry_at, entry_inode_no, entry_matches, find_entry, dir_entry_count,
  put_entry, osfs_lookup,
}
use ncku_operating_system.Osfs.Dir.Create.{CreateResult, osfs_create}
use ncku_operating_system.Osfs.Dir.EntryLaws.{entry_of}
use ncku_operating_system.Osfs.Dir.Made.{Created}
use ncku_operating_system.Osfs.Dir.CreateLaws.{osfs_create_lem}
use ncku_operating_system.Osfs.Dir.Names.{
  IsText, entry_matches-congr, find_entry-congr, find_entry-last, put_entry-before,
  put_entry-matches, put_entry-inode_no,
}

-- The names of the first `count` entries of the directory's block end inside their entries.
abbrev pub NamesEnd : Bytes → (base count : ℕ) → Type 0
NamesEnd m base count = (i : ℕ) → i < count → strlen text_limit m (entry_at base i) < 255

module _ (m : Bytes) (base count ino : ℕ) (name : List ℕ) (text : IsText name)
    (short : length name < 255) (ends : NamesEnd m base count) where
  -- The entries in front of the new one match the same names as before.
  same_find :
      (other : List ℕ)
      → find_entry (put_entry m base count name ino) base 0 count other
        ≡ find_entry m base 0 count other
  same_find other = find_entry-congr m (put_entry m base count name ino) base 0 count other λ i l u.
      entry_matches-congr m (put_entry m base count name ino) base i other (ends i (omega arith))
        (λ x a b. put_entry-before m base count name ino text short x (omega arith))

  put_entry-found :
      find_entry m base 0 count name ≡ none
      → find_entry (put_entry m base count name ino) base 0 (suc count) name ≡ some count
  put_entry-found fresh =
      find_entry-last (put_entry m base count name ino) base 0 count name (same_find name ∙ fresh) (
        ap (λ i. entry_matches (put_entry m base count name ino) base i name) (omega arith)
        ∙ put_entry-matches m base count name ino text short)
      ∙ ap some (omega arith)

lookup-found :
    (vfs : Vfs) (sb : SbInfo) (p i : ℕ) (name : List ℕ)
    → entry_of sb p name ≡ some i
    → osfs_lookup vfs sb p name
      ≡ some (
          osfs_iget vfs sb
            (entry_inode_no sb.data_blocks (block_address (sb.inode_table p).i_block) i))
unfolding osfs_lookup
lookup-found vfs sb p i name e = rw (e, osfs_lookup) refl

module _ (vfs later : Vfs) (sb : SbInfo) (p : ℕ) (name : List ℕ) (r : CreateResult)
    (text : IsText name) (short : length name < 255)
    (ends : NamesEnd sb.data_blocks
      (block_address (sb.inode_table p).i_block)
      (dir_entry_count (sb.inode_table p)))
    (made : Created vfs sb p name r) where
  abbrev base : ℕ
  base = block_address (sb.inode_table p).i_block

  abbrev count : ℕ
  count = dir_entry_count (sb.inode_table p)

  same_base : block_address (r.sb.inode_table p).i_block ≡ base
  same_base = ap block_address made.entry.4

  one_more : dir_entry_count (r.sb.inode_table p) ≡ suc count
  one_more = omega (arith, made.entry.3, made.entry.1)

  found_made : entry_of r.sb p name ≡ some count
  found_made =
      simp (same_base, one_more, made.entry.2)
        (put_entry-found sb.data_blocks base count made.n name text short ends made.entry.0)

  number_made :
      made.n < u32_mod
      → entry_inode_no r.sb.data_blocks (block_address (r.sb.inode_table p).i_block) count ≡ made.n
  number_made h =
      simp (same_base, made.entry.2)
        (put_entry-inode_no sb.data_blocks base count name made.n text short h)

  lookup_made :
      made.n < u32_mod → osfs_lookup later r.sb p name ≡ some (osfs_iget later r.sb made.n)
  lookup_made h =
      lookup-found later r.sb p count name found_made
      ∙ ap (λ n. some (osfs_iget later r.sb n)) (number_made h)

-- An inode that `osfs_iget` can load is loaded from its entry of the table.
osfs_iget-ok :
    (vfs : Vfs) (sb : SbInfo) (n : ℕ) (fresh : Inode)
    → 0 < n
    → n < sb.inode_count
    → vfs.new_inode ≡ some fresh
    → osfs_iget vfs sb n ≡ ok (loaded sb n n fresh)
unfolding osfs_iget osfs_get_osfs_inode
osfs_iget-ok vfs sb n fresh above below made =
    let not_zero : (n == 0) ≡ false = ground arith in
    let in_table : leb sb.inode_count n ≡ false = ground arith in
    rw (osfs_iget, not_zero, in_table, made) refl

-- What `osfs_lookup` finds after a successful `osfs_create`: inode `n`, which is inside the table and was
-- not in use, and is an empty file with one block, which was free.
pub record Found (vfs : Vfs) (sb : SbInfo) (p : ℕ) (name : List ℕ) (r : CreateResult) : Type 0 where
  pub n : ℕ
  pub inode : Inode
  pub looked_up : osfs_lookup vfs r.sb p name ≡ some (ok inode)
  pub inside : (0 < n) × (n < sb.inode_count)
  pub number : inode.i_ino ≡ n
  pub node : inode.i_private ≡ some n
  pub is_empty : inode.i_size ≡ 0
  pub one_block : inode.i_blocks ≡ 1
  pub was_free : sb.inode_bitmap n ≡ false
  pub in_use : r.sb.inode_bitmap n ≡ true
  pub block_was_free : sb.block_bitmap (r.sb.inode_table n).i_block ≡ false

found_lem :
    (vfs later : Vfs) (fresh : Inode) (sb : SbInfo) (p : ℕ) (name : List ℕ) (r : CreateResult)
    → later.new_inode ≡ some fresh
    → IsText name
    → length name < 255
    → NamesEnd sb.data_blocks
        (block_address (sb.inode_table p).i_block)
        (dir_entry_count (sb.inode_table p))
    → IsCounted sb
    → Created vfs sb p name r
    → Found later sb p name r
found_lem vfs later fresh sb p name r memory text short ends c made = record {
  n = made.n;
  inode = loaded r.sb made.n made.n fresh;
  looked_up =
      lookup_made vfs later sb p name r text short ends made
        (omega (arith, made.inode_free.below, c.inodes_fit))
      ∙ ap some (
          osfs_iget-ok later r.sb made.n fresh (omega (arith, made.inode_free.above))
            (omega (arith, made.inode_free.below, made.accounts.inode_count)) memory);
  inside = (omega (arith, made.inode_free.above), made.inode_free.below);
  number = refl;
  node = refl;
  is_empty = made.entry.6;
  one_block = made.entry.7;
  was_free = made.inode_free.clear;
  in_use = ap (λ bits. bits made.n) made.accounts.inode_bitmap ∙ ground arith;
  block_was_free = ap sb.block_bitmap made.entry.5 ∙ made.block_free.clear;
}

-- In a directory that has a block and an inode in use and whose names end inside their entries, with
-- right counters, after a successful `osfs_create` of a name of less than 255 bytes and without NUL,
-- `osfs_lookup` of that name succeeds if the kernel then has memory for an inode: it gives an inode
-- of the table that was free and is now in use, an empty file with one block, which was free.
pub osfs_lookup-osfs_create :
    (vfs later : Vfs) (fresh : Inode) (sb : SbInfo) (dir : Inode) (name : List ℕ) (mode p : ℕ)
    → later.new_inode ≡ some fresh
    → IsCounted sb
    → dir.i_private ≡ some p
    → sb.inode_bitmap p ≡ true
    → IsText name
    → length name < max_filename_len
    → 0 < (sb.inode_table p).i_blocks
    → NamesEnd sb.data_blocks
        (block_address (sb.inode_table p).i_block)
        (dir_entry_count (sb.inode_table p))
    → (osfs_create vfs sb dir name mode).result ≡ ok tt
    → Found later sb p name (osfs_create vfs sb dir name mode)
osfs_lookup-osfs_create vfs later fresh sb dir name mode p memory c private in_use text short
      some_blocks ends done =
    elim (osfs_create_lem vfs sb dir name mode p c private in_use short some_blocks) [
      | inl made ↦
          found_lem vfs later fresh sb p name (osfs_create vfs sb dir name mode) memory text short
            ends c made
      | inr (inl back) ↦ absurd (cc (back.failed, done))
      | inr (inr not_made) ↦ absurd (cc (not_made.failed, done))
    ]
