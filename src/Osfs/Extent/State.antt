-- ===== src/Osfs/Extent/State.antt =====
-- lab4/file.c: a regular file in the whole state: its table, and that its blocks are in use, apart
-- from the table's and from one another; appending a block keeps that.
use ncku_operating_system.Base.{
  ℕ, zero, suc, ◌+◌, ◌*◌, ◌≤◌, ◌<◌, ◌≡◌, ◌≢◌, refl, inl, inr, List, [], ◌∷◌, ◌++◌, Option, none,
  some, arith, length, get_elem?, length-append, ap, ◌∙◌, sym, ◌⊎◌, All, All-get, All-append,
  All-mono, update, u32_mod, inc32, dec32, true, false, le→ltb,
}
use ncku_operating_system.Osfs.Types.{
  Bytes, enospc, Result, ok, err, Inode, SbInfo, block_size, osfs_max_extents,
}
use ncku_operating_system.Osfs.Alloc.{take_block}
use ncku_operating_system.Osfs.Alloc.Laws.{IsFirstClear, AllSet, osfs_alloc_data_block_lem}
use ncku_operating_system.Osfs.Alloc.Accounting.{free-take}
use ncku_operating_system.Osfs.Extent.{
  header_count, extend_table, count_block, append_allocated, osfs_extent_append_block,
}
use ncku_operating_system.Osfs.Extent.Blocks.{block_map}
use ncku_operating_system.Osfs.Extent.Table.{IsTable, length-block_map-le}
use ncku_operating_system.Osfs.Extent.Append.{Extended, Extends, extend_table_lem}

-- No block stands twice in a list.
abbrev pub NoRepeat : List ℕ → Type 0
NoRepeat bs = (i j b : ℕ) → get_elem? bs i ≡ some b → get_elem? bs j ≡ some b → i ≡ j

-- A block that is in use, and is not the block `t` of the table.
abbrev pub IsOwned : SbInfo → ℕ → ℕ → Type 0
IsOwned sb t b = (b < sb.block_count) × (sb.block_bitmap b ≡ true) × (b ≢ t)

-- The table in block `t` describes a file of `sb`.
pub record IsFile (sb : SbInfo) (t : ℕ) : Type 0 where
  pub space : sb.block_count * block_size ≤ u32_mod
  pub table_used : (t < sb.block_count) × (sb.block_bitmap t ≡ true)
  pub table : IsTable sb.data_blocks (t * block_size) sb.block_count
  pub owned : All (IsOwned sb t) (block_map sb.data_blocks (t * block_size))
  pub distinct : NoRepeat (block_map sb.data_blocks (t * block_size))

-- The blocks of the file whose table is in block `t`.
abbrev pub file_blocks : SbInfo → ℕ → List ℕ
file_blocks sb t = block_map sb.data_blocks (t * block_size)

-- A file has fewer than 2 ^ 32 blocks.
pub length-file_blocks-lt :
    (sb : SbInfo) (t : ℕ) → IsFile sb t → suc (suc (length (file_blocks sb t))) < u32_mod
length-file_blocks-lt sb t f =
    omega
      (arith, length-block_map-le sb.data_blocks (t * block_size) sb.block_count f.table, f.space)

pub get_elem?-snoc :
    (bs : List ℕ) (b i c : ℕ)
    → get_elem? (bs ++ b ∷ []) i ≡ some c
    → (get_elem? bs i ≡ some c) ⊎ ((i ≡ length bs) × (c ≡ b))
get_elem?-snoc [] b zero c e = inr (refl, cc)
get_elem?-snoc [] b (suc i) c e = inl e
get_elem?-snoc (x ∷ bs) b zero c e = inl e
get_elem?-snoc (x ∷ bs) b (suc i) c e = elim (get_elem?-snoc bs b i c e) [
  | inl old ↦ inl old
  | inr last ↦ inr (ap suc last.0, last.1)
]

NoRepeat-snoc : (bs : List ℕ) (b : ℕ) → NoRepeat bs → All (λ c. c ≢ b) bs → NoRepeat (bs ++ b ∷ [])
NoRepeat-snoc bs b distinct other i j c p q = elim (get_elem?-snoc bs b i c p) [
  | inl old_i ↦ elim (get_elem?-snoc bs b j c q) [
    | inl old_j ↦ distinct i j c old_i old_j
    | inr new_j ↦ absurd (All-get (λ c. c ≢ b) bs i other old_i new_j.1)
  ]
  | inr new_i ↦ elim (get_elem?-snoc bs b j c q) [
    | inl old_j ↦ absurd (All-get (λ c. c ≢ b) bs j other old_j new_i.1)
    | inr new_j ↦ new_i.0 ∙ sym new_j.0
  ]
]

-- `i_blocks` counts the blocks of the file and the block of its table.
abbrev pub CountsBlocks : SbInfo → (t ino : ℕ) → Type 0
CountsBlocks sb t ino = (sb.inode_table ino).i_blocks ≡ suc (length (file_blocks sb t))

-- Between two states inode `ino` keeps its size and table, and its count of blocks stays right; every
-- other inode is the same.
pub record SameNodes (t ino : ℕ) (sb sb' : SbInfo) : Type 0 where
  pub blocks : CountsBlocks sb t ino → CountsBlocks sb' t ino
  pub size : (sb'.inode_table ino).i_size ≡ (sb.inode_table ino).i_size
  pub table_block : (sb'.inode_table ino).i_block ≡ (sb.inode_table ino).i_block
  pub others : (j : ℕ) → j ≢ ino → sb'.inode_table j ≡ sb.inode_table j

-- What a successful `osfs_extent_append_block` has done: `block` was free and is now the last block
-- of the file; that bit, the counter of free blocks, the inode's count of blocks and bytes of the table's
-- block have changed, and nothing else of the state.
pub record Appended (sb sb' : SbInfo) (t ino block : ℕ) : Type 0 where
  pub file : IsFile sb' t
  pub blocks : file_blocks sb' t ≡ file_blocks sb t ++ block ∷ []
  pub was_free : sb.block_bitmap block ≡ false
  pub bitmap : sb'.block_bitmap ≡ update sb.block_bitmap block true
  pub counter : sb'.nr_free_blocks ≡ dec32 sb.nr_free_blocks
  pub table :
      sb'.inode_table
      ≡ update sb.inode_table ino
          (record (sb.inode_table ino) { i_blocks = inc32 (sb.inode_table ino).i_blocks })
  pub same_count : sb'.block_count ≡ sb.block_count
  pub same_inode_count : sb'.inode_count ≡ sb.inode_count
  pub same_inode_bitmap : sb'.inode_bitmap ≡ sb.inode_bitmap
  pub same_free_inodes : sb'.nr_free_inodes ≡ sb.nr_free_inodes
  pub same_magic : sb'.magic ≡ sb.magic
  pub same_block_size : sb'.sb_block_size ≡ sb.sb_block_size
  pub counter_fits : sb'.nr_free_blocks < u32_mod
  pub nodes : SameNodes t ino sb sb'
  pub outside :
      (x : ℕ)
      → (x < t * block_size) ⊎ (t * block_size + block_size ≤ x)
      → sb'.data_blocks x ≡ sb.data_blocks x

-- The state in which `osfs_extent_append_block` succeeds.
abbrev pub appended_state : SbInfo → ℕ → ℕ → Bytes → SbInfo
appended_state sb ino block m = record (take_block sb block) {
  inode_table = update sb.inode_table ino (count_block (sb.inode_table ino));
  data_blocks = m;
}

module _ (sb : SbInfo) (t : ℕ) (f : IsFile sb t) (ino block : ℕ) (m : Bytes)
    (below : block < sb.block_count) (clear : sb.block_bitmap block ≡ false)
    (e : Extended sb.data_blocks m (t * block_size) sb.block_count block) where
  set_stays : (b : ℕ) → sb.block_bitmap b ≡ true → update sb.block_bitmap block true b ≡ true
  set_stays b set = ground arith

  ne_of_set : (b : ℕ) → sb.block_bitmap b ≡ true → b ≢ block
  ne_of_set b set same = cc (ap sb.block_bitmap same)

  count_blocks : CountsBlocks sb t ino → CountsBlocks (appended_state sb ino block m) t ino
  count_blocks c =
      let longer : length (file_blocks (appended_state sb ino block m) t)
          ≡ suc (length (file_blocks sb t)) =
        rw e.blocks (omega (arith, length-append (file_blocks sb t) (block ∷ []))) in
      rw longer (ground (arith, c, length-file_blocks-lt sb t f))

  appended : Appended sb (appended_state sb ino block m) t ino block
  appended = record {
    file = record {
      space = f.space;
      table_used = (f.table_used.0, set_stays t f.table_used.1);
      table = e.table;
      owned = rw e.blocks (
          All-append _ (file_blocks sb t) (block ∷ [])
            (All-mono _ (file_blocks sb t) (λ b o. (o.0, set_stays b o.1, o.2)) f.owned)
            ((below, ground arith, λ same. ne_of_set t f.table_used.1 (sym same)), tt));
      distinct = rw e.blocks (
          NoRepeat-snoc (file_blocks sb t) block f.distinct
            (All-mono _ (file_blocks sb t) (λ b o. ne_of_set b o.1) f.owned));
    };
    blocks = e.blocks;
    was_free = clear;
    bitmap = refl;
    counter = refl;
    table = refl;
    same_count = refl;
    same_inode_count = refl;
    same_inode_bitmap = refl;
    same_free_inodes = refl;
    same_magic = refl;
    same_block_size = refl;
    counter_fits = omega arith;
    nodes = record {
      blocks = count_blocks;
      size = ground arith;
      table_block = ground arith;
      others = λ j ne. ground arith;
    };
    outside = e.outside;
  }

-- No block is free, or the table has no room for another extent.
abbrev pub IsFull : SbInfo → ℕ → Type 0
IsFull sb t =
    AllSet sb.block_bitmap 0 sb.block_count
    ⊎ (header_count sb.data_blocks (t * block_size) ≡ osfs_max_extents)

-- The two outcomes of appending a block: it is the file's next block, and the VFS inode has the new count
-- of blocks; or the disk or the table is full, and the state and the VFS inode are as before.
abbrev pub AppendOutcome : SbInfo → ℕ → ℕ → Inode → Result ℕ × SbInfo × Inode → Type 0
AppendOutcome sb t ino inode (ok block, sb', inode') =
    Appended sb sb' t ino block
    × (inode' ≡ record inode { i_blocks = inc32 (sb.inode_table ino).i_blocks })
AppendOutcome sb t ino inode (err e, sb', inode') =
    (e ≡ enospc) × (sb' ≡ sb) × (inode' ≡ inode) × IsFull sb t

module _ (sb : SbInfo) (t ino : ℕ) (inode : Inode) (f : IsFile sb t)
    (counted : sb.nr_free_blocks < u32_mod) where
  append_allocated-ok :
      (block : ℕ)
      → IsFirstClear sb.block_bitmap 0 sb.block_count block
      → AppendOutcome sb t ino inode
          (append_allocated ino inode (t * block_size) (ok block, take_block sb block))
  unfolding append_allocated
  append_allocated-ok block free = go _ refl (
      extend_table_lem sb.data_blocks (t * block_size) sb.block_count block f.table
        (omega (arith, f.space)) free.below)
    where
      go :
          (o : Option Bytes)
          → extend_table sb.data_blocks (t * block_size) block ≡ o
          → Extends sb.data_blocks (t * block_size) sb.block_count block o
          → AppendOutcome sb t ino inode
              (append_allocated ino inode (t * block_size) (ok block, take_block sb block))
      go none e full =
          rw (e, append_allocated) (refl, free-take sb block counted free.clear, refl, inr full)
      go (some m) e ext =
          rw (e, append_allocated) (appended sb t f ino block m free.below free.clear ext, refl)

  -- On a file with a well-formed table, and a counter of free blocks below 2 ^ 32, the append either
  -- makes a free block the file's last one and keeps the file well formed, counts the block in the
  -- counter of free blocks, in the inode and in the VFS inode, and changes no other block's bytes or
  -- bit, no other inode and no other member of the state or of the VFS inode; or it fails with
  -- `-ENOSPC`, with everything as it was, because no block is free or the table has
  -- `OSFS_MAX_EXTENTS` extents.
  pub osfs_extent_append_block_lem :
      AppendOutcome sb t ino inode
        (osfs_extent_append_block sb (some ino) inode (some (t * block_size)))
  unfolding osfs_extent_append_block append_allocated
  osfs_extent_append_block_lem =
      rw (le→ltb osfs_max_extents (header_count sb.data_blocks (t * block_size)) f.table.count_fits)
        (elim (osfs_alloc_data_block_lem sb) [
          | inl (block, free, e) ↦ rw e (append_allocated-ok block free)
          | inr (full, e) ↦ rw (e, append_allocated) (refl, refl, refl, inl full)
        ])
