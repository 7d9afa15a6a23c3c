-- ===== src/Osfs/File/WriteLaws.antt =====
-- lab4/file.c: `osfs_write` on a regular file whose table is well formed.
use ncku_operating_system.Base.{
  ℕ, ◌+◌, ◌*◌, ◌/◌, ◌%◌, ◌≤◌, ◌<◌, ◌≡◌, ◌≢◌, refl, inl, inr, List, Option, some, arith, length, ◌∙◌,
  ◌⊎◌, u32_mod, ltb, if◌then◌else◌, ◌==◌, true, false, ==_iff, le→ltb, take,
}
use ncku_operating_system.Osfs.Types.{
  enospc, efault, Result, ok, err, OsfsInode, Inode, SbInfo, block_size, is_reg, osfs_extent_magic,
  osfs_max_extents,
}
use ncku_operating_system.Osfs.Extent.{
  header_magic, block_address, osfs_get_extent_header, ensure_header, osfs_extent_ensure_table,
  osfs_extent_total_blocks,
}
use ncku_operating_system.Osfs.Extent.Blocks.{osfs_extent_total_blocks_lem}
use ncku_operating_system.Osfs.Extent.State.{
  IsFile, IsFull, file_blocks, SameNodes, CountsBlocks, length-file_blocks-lt,
}
use ncku_operating_system.Osfs.File.{UserCopy, WriteResult}
use ncku_operating_system.Osfs.File.Write.{
  write_end, write_with_table, osfs_extent_do_write, write_or_direct, osfs_write,
}
use ncku_operating_system.Osfs.File.Content.{file_byte, Written}
use ncku_operating_system.Osfs.File.Chunk.{CopiesFrom, FaultsFrom, WriteOutcome}
use ncku_operating_system.Osfs.File.WriteLoop.{write_loop_lem}

-- Inode `ino` is a file with its table in block `t`, which is not block 0.
pub record HasTable (sb : SbInfo) (ino t : ℕ) : Type 0 where
  pub counted : CountsBlocks sb t ino
  pub at : (sb.inode_table ino).i_block ≡ t
  pub not_first : 0 < t
  pub file : IsFile sb t

pub header_address : (sb : SbInfo) (t : ℕ) → IsFile sb t → block_address t ≡ t * block_size
header_address sb t f = omega (arith, f.space, f.table_used.0)

-- A table that is there is used as it is.
pub ensure_table_lem :
    (sb : SbInfo) (ino t : ℕ) (inode : Inode)
    → HasTable sb ino t
    → osfs_extent_ensure_table sb (some ino) inode ≡ (ok (t * block_size), sb, inode)
unfolding osfs_extent_ensure_table ensure_header osfs_get_extent_header
ensure_table_lem sb ino t inode h =
    let node = sb.inode_table ino in
    let some_blocks : (node.i_blocks == 0) ≡ false = ground (arith, h.counted) in
    let some_block : (node.i_block == 0) ≡ false = ground (arith, h.at, h.not_first) in
    let magic : (header_magic sb.data_blocks (t * block_size) == osfs_extent_magic) ≡ true =
      (==_iff _ _).1 h.file.table.is_magic in
    let count = le→ltb osfs_max_extents _ h.file.table.count_fits in
    rw (some_blocks, some_block, h.at, header_address sb t h.file, magic, count) refl

-- A change of the inode table alone leaves what has been written.
Written-nodes :
    (sb s : SbInfo) (table : ℕ → OsfsInode) (t pos : ℕ) (bs : List ℕ)
    → Written sb s t pos bs
    → Written sb (record s { inode_table = table }) t pos bs
unfolding file_byte
Written-nodes sb s table t pos bs w = record {
  file = record {
    space = w.file.space;
    table_used = w.file.table_used;
    table = w.file.table;
    owned = w.file.owned;
    distinct = w.file.distinct;
  };
  longer = w.longer;
  inside = w.inside;
  outside = w.outside;
  origin = w.origin;
  still_used = w.still_used;
  elsewhere = w.elsewhere;
}

-- The size of a file after a write that ends at `end`.
abbrev pub grown_size : ℕ → ℕ → ℕ
grown_size size end = if ltb size end then end % u32_mod else size

-- What a write of `buf` at `pos` leaves: all of it is in place and the size and position are moved;
-- or, on an error, position and size are as before, and if the disk or the table is full a first
-- part of the buffer is in place.
abbrev pub WriteResultOf :
    UserCopy → SbInfo → (ino t pos : ℕ) → List ℕ → WriteResult → Result ℕ → Type 0
WriteResultOf user sb ino t pos buf w (ok n) =
    (n ≡ length buf)
    × (w.ppos ≡ pos + length buf)
    × Written sb w.sb t pos buf
    × ((w.sb.inode_table ino).i_size ≡ grown_size (sb.inode_table ino).i_size (pos + length buf))
    × HasTable w.sb ino t
    × ((j : ℕ) → j ≢ ino → w.sb.inode_table j ≡ sb.inode_table j)
WriteResultOf user sb ino t pos buf w (err e) =
    (w.ppos ≡ pos)
    × (((e ≡ enospc) × record {
      part : ℕ;
      short : part < length buf;
      full : IsFull w.sb t;
      written : Written sb w.sb t pos (take part buf);
      nodes : SameNodes t ino sb w.sb;
    })
        ⊎ ((e ≡ efault) × FaultsFrom user sb t pos buf))

module _ (user : UserCopy) (copies : CopiesFrom user) (sb : SbInfo) (ino t pos : ℕ)
    (buf : List ℕ) where
  write_end_lem :
      HasTable sb ino t
      → (w : WriteResult) (r : Result ℕ) → w.result ≡ r
      → WriteOutcome user sb t ino pos 0 buf w r
      → WriteResultOf user sb ino t pos buf
          (write_end user ino pos w)
          (write_end user ino pos w).result
  unfolding write_end
  write_end_lem h w (ok n) e (count, position, written, nodes) = rw e (
    omega arith,
    position,
    Written-nodes sb w.sb _ t pos buf written,
    ground (arith, nodes.size, position),
    record {
      counted = ground (arith, nodes.blocks h.counted);
      at = ground (arith, nodes.table_block, h.at);
      not_first = h.not_first;
      file = (Written-nodes sb w.sb _ t pos buf written).file;
    },
    λ j ne. ground (arith, nodes.others j ne),
  )
  write_end_lem h w (err x) e out = rw e (refl, out)

  -- The whole of `osfs_extent_do_write` returns.
  abbrev pub WritesFile : Option WriteResult → Type 0
  WritesFile o = (w : WriteResult) × (o ≡ some w) × WriteResultOf user sb ino t pos buf w w.result

  pub do_write_lem :
      (inode : Inode)
      → HasTable sb ino t
      → sb.nr_free_blocks < u32_mod
      → pos / block_size ≤ length (file_blocks sb t)
      → WritesFile (osfs_extent_do_write user sb (some ino) inode buf pos)
  unfolding osfs_extent_do_write write_with_table
  do_write_lem inode h counted near =
      let (w, runs, out) =
        write_loop_lem user copies t ino (length buf) sb inode pos 0
          (osfs_extent_total_blocks sb.data_blocks (some (t * block_size))) buf (omega arith)
          (record { file = h.file; counted = counted; exact = exact; near = rw exact near }) in
      rw (ensure_table_lem sb ino t inode h, write_with_table, runs)
        (write_end user ino pos w, refl, write_end_lem h w w.result refl out)
    where
      exact :
          osfs_extent_total_blocks sb.data_blocks (some (t * block_size))
          ≡ length (file_blocks sb t)
      exact =
          osfs_extent_total_blocks_lem sb.data_blocks (t * block_size)
            (record { is_magic = h.file.table.is_magic; count_fits = h.file.table.count_fits })
          ∙ omega (arith, length-file_blocks-lt sb t h.file)

  -- When copies from the user store the buffer or fault, the table of a regular file is well formed and
  -- not in block 0, its count of blocks is right, the counter of free blocks is below 2 ^ 32 and the
  -- position is at most in the block behind the file's last, `osfs_write` returns. Either it wrote all
  -- of the buffer: every byte of it stands in the file,
  -- every other byte of the file and of the other blocks in use is as before, the size and the position
  -- have moved, the table is well formed and the other inodes are the same. Or the position is as before,
  -- and it failed with `-EFAULT`, because with a first part of the buffer written the copy of the next
  -- piece to its place in the file faulted; or with `-ENOSPC`, on a full disk or table, with a first
  -- part of the buffer written.
  pub osfs_write_lem :
      (inode : Inode)
      → is_reg inode.i_mode ≡ true
      → inode.i_private ≡ some ino
      → HasTable sb ino t
      → sb.nr_free_blocks < u32_mod
      → pos / block_size ≤ length (file_blocks sb t)
      → WritesFile (osfs_write user sb inode buf pos)
  unfolding osfs_write
  osfs_write_lem inode reg private h counted near =
      let (w, runs, out) = do_write_lem inode h counted near in
      simp (reg, private, runs) (go w w.result refl out)
    where
      go :
          (w : WriteResult) (r : Result ℕ)
          → w.result ≡ r
          → WriteResultOf user sb ino t pos buf w r
          → WritesFile (write_or_direct user (some ino) buf pos (some w))
      go w (ok n) e out = rw e (w, refl, rw e out)
      go w (err x) e (still, inl (full, p)) = rw (e, full) (w, refl, rw e (still, inl (full, p)))
      go w (err x) e (still, inr fault) = rw (e, fault.0) (w, refl, rw e (still, inr fault))
