-- ===== src/Osfs/File/ReadLaws.antt =====
-- lab4/file.c: `osfs_read` on a regular file whose table is well formed, and reading back what has
-- been written.
use mathlib.Core.Option
use ncku_operating_system.Base.{
  ℕ, ◌+◌, ◌-◌, ◌*◌, ◌/◌, ◌≤◌, ◌<◌, ◌≡◌, refl, inl, inr, List, [], Option, some, arith, length, ap,
  ◌∙◌, subst, ◌⊎◌, u32_mod, ltb, leb, if◌then◌else◌, ◌==◌, true, false, Bool-cases, ==_iff,
  get_elem?-of_lt, min,
}
use ncku_operating_system.Osfs.Types.{
  efault, Result, ok, err, OsfsInode, Inode, SbInfo, block_size, is_reg, osfs_extent_magic,
}
use ncku_operating_system.Osfs.Extent.{header_magic, osfs_get_extent_header}
use ncku_operating_system.Osfs.Extent.State.{IsFile, file_blocks}
use ncku_operating_system.Osfs.File.{UserCopy, ReadResult}
use ncku_operating_system.Osfs.File.Read.{
  read_loop, read_end, osfs_extent_do_read, read_or_direct, osfs_read,
}
use ncku_operating_system.Osfs.File.Content.{file_byte-lt, Written}
use ncku_operating_system.Osfs.File.WriteLaws.{HasTable, header_address}
use ncku_operating_system.Osfs.File.ReadLoop.{
  FaultsTo, file_bytes, file_bytes-Written, read_loop_lem,
}
use ncku_operating_system.Osfs.File.{WriteResult}
use ncku_operating_system.Osfs.File.Write.{osfs_write}
use ncku_operating_system.Osfs.File.Chunk.{CopiesFrom}
use ncku_operating_system.Osfs.File.WriteLaws.{WriteResultOf, osfs_write_lem}

-- What `osfs_read` of `len` bytes at `pos` leaves: the bytes from there on, up to the end of the file,
-- and the position behind them; or `-EFAULT`. The file system is unchanged.
abbrev pub ReadResultOf :
    UserCopy → SbInfo → (t size len pos : ℕ) → ReadResult → Result (List ℕ) → Type 0
ReadResultOf user sb t size len pos r (ok bytes) =
    (bytes ≡ file_bytes sb t pos (min len (size - pos)))
    × (r.ppos ≡ pos + min len (size - pos))
    × (r.sb ≡ sb)
ReadResultOf user sb t size len pos r (err e) =
    (e ≡ efault) × (r.ppos ≡ pos) × (r.sb ≡ sb) × FaultsTo user

module _ (user : UserCopy) (sb : SbInfo) (ino t len pos : ℕ) where
  abbrev node : OsfsInode
  node = sb.inode_table ino

  abbrev pub ReadsFile : Option ReadResult → Type 0
  ReadsFile o =
      (r : ReadResult) × (o ≡ some r)
      × ReadResultOf user sb t (sb.inode_table ino).i_size len pos r r.result

  -- The number of bytes that the code asks for.
  abbrev asked : ℕ
  asked = if ltb node.i_size (pos + len) then node.i_size - pos else len

  asked-min : pos < node.i_size → asked ≡ min len (node.i_size - pos)
  asked-min h = ground arith

  after_loop :
      (f : IsFile sb t)
      → pos < node.i_size
      → node.i_size ≤ length (file_blocks sb t) * block_size
      → ReadsFile (
          Option.map
            (read_end user sb pos)
            (read_loop user asked sb.data_blocks (t * block_size) pos asked []))
  after_loop f more sized =
      elim (read_loop_lem user sb t f asked pos asked [] (omega arith) (ground arith)) [
        | inl e ↦ rw e (
          _,
          refl,
          (ap (file_bytes sb t pos) (asked-min more), ap (λ n. pos + n) (asked-min more), refl),
        )
        | inr (p, e, faults) ↦ rw e (_, refl, (refl, refl, refl, faults))
      ]

  do_read_lem :
      HasTable sb ino t
      → node.i_size ≤ length (file_blocks sb t) * block_size
      → ReadsFile (osfs_extent_do_read user sb (some ino) len pos)
  unfolding osfs_extent_do_read osfs_get_extent_header file_bytes
  do_read_lem h sized =
      let some_blocks : (node.i_blocks == 0) ≡ false = ground (arith, h.counted) in
      let some_block : (node.i_block == 0) ≡ false = ground (arith, h.at, h.not_first) in
      let magic : (header_magic sb.data_blocks (t * block_size) == osfs_extent_magic) ≡ true =
        (==_iff _ _).1 h.file.table.is_magic in
      elim (Bool-cases (leb node.i_size pos)) [
        | inl past ↦
            let none_left : min len (node.i_size - pos) ≡ 0 = ground arith in
            rw (some_blocks, some_block, h.at, header_address sb t h.file, magic, past)
              (_, refl, (rw none_left refl, omega (arith, none_left), refl))
        | inr inside ↦
            rw (some_blocks, some_block, h.at, header_address sb t h.file, magic, inside)
              (after_loop h.file (ground arith) sized)
      ]

  -- When the table of a regular file is well formed and its size is within its blocks, `osfs_read`
  -- returns, and leaves the file system as it was: either with the bytes of the file from the position
  -- on, as many as asked for or as there are up to the size, and the position behind them, or with
  -- `-EFAULT` at a faulting copy and the position as before.
  pub osfs_read_lem :
      (inode : Inode)
      → is_reg inode.i_mode ≡ true
      → inode.i_private ≡ some ino
      → HasTable sb ino t
      → (sb.inode_table ino).i_size ≤ length (file_blocks sb t) * block_size
      → ReadsFile (osfs_read user sb inode len pos)
  unfolding osfs_read
  osfs_read_lem inode reg private h sized =
      let (r, runs, out) = do_read_lem h sized in simp (reg, private, runs) (go r r.result refl out)
    where
      go :
          (r : ReadResult) (x : Result (List ℕ))
          → r.result ≡ x
          → ReadResultOf user sb t (sb.inode_table ino).i_size len pos r x
          → ReadsFile (read_or_direct user sb (some ino) len pos (some r))
      go r (ok bytes) e out = rw e (r, refl, rw e out)
      go r (err x) e out = rw (e, out.0) (r, refl, rw e out)

-- A write of at least one byte ends inside the file's blocks.
Written-end :
    (sb sb' : SbInfo) (t pos : ℕ) (buf : List ℕ)
    → 0 < length buf
    → Written sb sb' t pos buf
    → pos + length buf ≤ length (file_blocks sb' t) * block_size
Written-end sb sb' t pos buf some_bytes w =
    let last = length buf - 1 in
    let (c, e) = get_elem?-of_lt buf last (omega arith) in
    omega (arith, file_byte-lt sb' t (pos + last) (w.inside last c e))

module _ (user : UserCopy) (copies : CopiesFrom user) (sb : SbInfo) (ino t pos : ℕ) (buf : List ℕ)
    (inode : Inode) (reg : is_reg inode.i_mode ≡ true) (private : inode.i_private ≡ some ino)
    (h : HasTable sb ino t) (counted : sb.nr_free_blocks < u32_mod)
    (near : pos / block_size ≤ length (file_blocks sb t)) (some_bytes : 0 < length buf)
    (sized : (sb.inode_table ino).i_size ≤ length (file_blocks sb t) * block_size)
    (small : pos + length buf < u32_mod) where
  -- The size stays within the blocks.
  sized_after :
      (w : WriteResult) (n : ℕ)
      → WriteResultOf user sb ino t pos buf w (ok n)
      → (w.sb.inode_table ino).i_size ≤ length (file_blocks w.sb t) * block_size
  sized_after w n (count, position, written, size, table, others) =
      ground (arith, size, written.longer, Written-end sb w.sb t pos buf some_bytes written)

  read_back :
      (w : WriteResult) (n : ℕ)
      → WriteResultOf user sb ino t pos buf w (ok n)
      → (r : ReadResult) (x : Result (List ℕ)) → r.result ≡ x
      → ReadResultOf user w.sb t (w.sb.inode_table ino).i_size (length buf) pos r x
      → (r.result ≡ ok buf) ⊎ ((r.result ≡ err efault) × FaultsTo user)
  read_back w n (count, position, written, size, table, others) r (ok bytes) e (got, p, s) =
      let all : min (length buf) ((w.sb.inode_table ino).i_size - pos) ≡ length buf =
        ground (arith, size) in
      inl (
        e
        ∙ ap ok
            (got ∙ ap (file_bytes w.sb t pos) all ∙ file_bytes-Written sb w.sb t pos buf written))
  read_back w n out r (err x) e (fault, p, s, faults) = inr (e ∙ ap err fault, faults)

  -- What has been written is read back: under the conditions of `osfs_write` (a well-formed table, a
  -- position at most in the block behind the file's last) on a file whose size is within its blocks,
  -- for at least one byte and an end below 2 ^ 32, after an `osfs_write` that succeeds, an `osfs_read`
  -- through any inode of that file, at the same position and for the same length, gives the bytes that
  -- were written, unless a copy to the user faults.
  pub read-write :
      (w : WriteResult) (n : ℕ)
      → osfs_write user sb inode buf pos ≡ some w
      → w.result ≡ ok n
      → (inode' : Inode) → is_reg inode'.i_mode ≡ true
      → inode'.i_private ≡ some ino
      → (r : ReadResult) × (osfs_read user w.sb inode' (length buf) pos ≡ some r)
        × ((r.result ≡ ok buf) ⊎ ((r.result ≡ err efault) × FaultsTo user))
  read-write w n runs done inode' reg' private' =
      let (w', runs', out') =
        osfs_write_lem user copies sb ino t pos buf inode reg private h counted near in
      let same : w' ≡ w = cc (runs', runs) in
      let out : WriteResultOf user sb ino t pos buf w (ok n) =
        subst (WriteResultOf user sb ino t pos buf w) done
          (subst (λ v. WriteResultOf user sb ino t pos buf v v.result) same out') in
      let (r, reads, got) =
        osfs_read_lem user w.sb ino t (length buf) pos inode' reg' private' out.4
          (sized_after w n out) in
      (r, reads, read_back w n out r r.result refl got)
