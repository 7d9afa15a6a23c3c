-- ===== src/Osfs/File/FreshLaws.antt =====
-- lab4/file.c: the first write to a file that `osfs_create` has made: its block becomes its table.
use ncku_operating_system.Base.{
  ℕ, suc, ◌+◌, ◌*◌, ◌/◌, ◌≤◌, ◌<◌, ◌≡◌, refl, inl, List, [], some, arith, length, ap, ◌∙◌, sym,
  u32_mod, ◌==◌, true, false, All, subst,
}
use ncku_operating_system.Osfs.Types.{
  Bytes, ok, Inode, SbInfo, block_size, is_reg, osfs_extent_magic,
}
use ncku_operating_system.Osfs.Memory.Laws.{load32-store32, load32-store32_ne}
use ncku_operating_system.Osfs.Extent.{
  header_magic, header_count, block_address, osfs_get_extent_header, osfs_extent_reset_header,
  ensure_header, osfs_extent_ensure_table,
}
use ncku_operating_system.Osfs.Extent.Blocks.{block_map, blocks_from}
use ncku_operating_system.Osfs.Extent.State.{IsOwned, NoRepeat, file_blocks}
use ncku_operating_system.Osfs.File.{UserCopy}
use ncku_operating_system.Osfs.File.Write.{
  write_with_table, osfs_extent_do_write, write_or_direct, osfs_write,
}
use ncku_operating_system.Osfs.File.Chunk.{CopiesFrom}
use ncku_operating_system.Osfs.File.WriteLaws.{
  HasTable, WritesFile, ensure_table_lem, osfs_write_lem,
}

-- Inode `ino` has one block, `t`, which is in use, is not block 0 and does not start with the number of a
-- table.
pub record IsFresh (sb : SbInfo) (ino t : ℕ) : Type 0 where
  pub one_block : (sb.inode_table ino).i_blocks ≡ 1
  pub at : (sb.inode_table ino).i_block ≡ t
  pub not_first : 0 < t
  pub space : sb.block_count * block_size ≤ u32_mod
  pub used : (t < sb.block_count) × (sb.block_bitmap t ≡ true)
  pub no_magic : (header_magic sb.data_blocks (t * block_size) == osfs_extent_magic) ≡ false

-- The state with an empty table in block `t`.
abbrev pub with_table : SbInfo → (t : ℕ) → SbInfo
with_table sb t = record sb {
  data_blocks = osfs_extent_reset_header sb.data_blocks (some (t * block_size));
}

reset-magic :
    (m : Bytes) (hdr : ℕ)
    → header_magic (osfs_extent_reset_header m (some hdr)) hdr ≡ osfs_extent_magic
unfolding osfs_extent_reset_header
reset-magic m hdr =
    load32-store32_ne _ hdr (hdr + 4) 0 (inl (omega arith))
    ∙ load32-store32 _ hdr osfs_extent_magic (omega arith)

reset-count : (m : Bytes) (hdr : ℕ) → header_count (osfs_extent_reset_header m (some hdr)) hdr ≡ 0
unfolding osfs_extent_reset_header
reset-count m hdr = load32-store32 _ (hdr + 4) 0 (omega arith)

reset-block_map : (m : Bytes) (hdr : ℕ) → block_map (osfs_extent_reset_header m (some hdr)) hdr ≡ []
unfolding block_map blocks_from
reset-block_map m hdr = rw (reset-count m hdr) refl

module _ (sb : SbInfo) (ino t : ℕ) (f : IsFresh sb ino t) where
  pub with_table-HasTable : HasTable (with_table sb t) ino t
  with_table-HasTable =
      let empty = reset-block_map sb.data_blocks (t * block_size) in
      let count = reset-count sb.data_blocks (t * block_size) in
      record {
        counted = f.one_block ∙ ap (λ bs. suc (length bs)) (sym empty);
        at = f.at;
        not_first = f.not_first;
        file = record {
          space = f.space;
          table_used = f.used;
          table = record {
            is_magic = reset-magic sb.data_blocks (t * block_size);
            count_fits = omega (arith, count);
            runs = λ i h. absurd (omega (arith, count));
          };
          owned = subst (λ bs. All (IsOwned (with_table sb t) t) bs) (sym empty) tt;
          distinct = subst NoRepeat (sym empty) (λ i j b e q. absurd (cc e));
        };
      }

  -- A block that is no table yet becomes an empty one.
  ensure_fresh :
      (inode : Inode)
      → osfs_extent_ensure_table sb (some ino) inode ≡ (ok (t * block_size), with_table sb t, inode)
  unfolding osfs_extent_ensure_table ensure_header osfs_get_extent_header
  ensure_fresh inode =
      let some_blocks : ((sb.inode_table ino).i_blocks == 0) ≡ false =
        ground (arith, f.one_block) in
      let some_block : ((sb.inode_table ino).i_block == 0) ≡ false =
        ground (arith, f.at, f.not_first) in
      let address : block_address t ≡ t * block_size = omega (arith, f.space, f.used.0) in
      rw (some_blocks, some_block, f.at, address, f.no_magic) refl

  same_write :
      (user : UserCopy) (inode : Inode) (buf : List ℕ) (pos : ℕ)
      → osfs_extent_do_write user sb (some ino) inode buf pos
        ≡ osfs_extent_do_write user (with_table sb t) (some ino) inode buf pos
  unfolding osfs_extent_do_write
  same_write user inode buf pos = ap (write_with_table user ino buf pos) (
      ensure_fresh inode ∙ sym (ensure_table_lem (with_table sb t) ino t inode with_table-HasTable))

  same_osfs_write :
      (user : UserCopy) (inode : Inode) (buf : List ℕ) (pos : ℕ)
      → is_reg inode.i_mode ≡ true
      → inode.i_private ≡ some ino
      → osfs_write user sb inode buf pos ≡ osfs_write user (with_table sb t) inode buf pos
  unfolding osfs_write
  same_osfs_write user inode buf pos reg private =
      simp (reg, private)
        (ap (write_or_direct user (some ino) buf pos) (same_write user inode buf pos))

  module _ (user : UserCopy) (copies : CopiesFrom user) (pos : ℕ) (buf : List ℕ) where
    -- On a regular file with one block, in use, not block 0, and without the number of a table, and
    -- under the conditions on the user's copies and the counter of free blocks, `osfs_write` at a position
    -- in the first kilobyte makes the block an empty table, and then returns as it does for a file with
    -- that table: all of the buffer written, or an error and a first part.
    pub osfs_write-fresh :
        (inode : Inode)
        → is_reg inode.i_mode ≡ true
        → inode.i_private ≡ some ino
        → sb.nr_free_blocks < u32_mod
        → pos < block_size
        → WritesFile user copies (with_table sb t) ino t pos buf (osfs_write user sb inode buf pos)
    osfs_write-fresh inode reg private counted small =
        let near : pos / block_size ≤ length (file_blocks (with_table sb t) t) = omega arith in
        subst (WritesFile user copies (with_table sb t) ino t pos buf)
          (sym (same_osfs_write user inode buf pos reg private))
          (osfs_write_lem user copies (with_table sb t) ino t pos buf inode reg private
            with_table-HasTable counted near)
