-- ===== src/Osfs/File/Read.antt =====
-- lab4/file.c: `osfs_extent_do_read` and `osfs_read`.
use mathlib.Core.Option
use ncku_operating_system.Base.{
  ℕ, zero, suc, ◌+◌, ◌-◌, true, false, ◌||◌, Option, none, some, List, [], ◌++◌, not, ltb, leb,
  ◌==◌, if◌then◌else◌, length, min,
}
use ncku_operating_system.Osfs.Types.{
  Bytes, eio, efault, eopnotsupp, Result, ok, err, Inode, SbInfo, block_size, osfs_extent_magic,
  is_reg,
}
use ncku_operating_system.Osfs.Memory.{read_bytes}
use ncku_operating_system.Osfs.Extent.{
  header_magic, block_address, osfs_get_extent_header, osfs_extent_reset_header,
  osfs_extent_lookup_block,
}
use ncku_operating_system.Osfs.File.{UserCopy, logical_block, block_offset, ReadResult}

module _ (user : UserCopy) where
  -- The `while` of `osfs_extent_do_read`; `rounds` is the fuel.
  unfoldable pub read_loop :
      (rounds : ℕ) → Bytes → (hdr pos remaining : ℕ) → (out : List ℕ) → Option (Result (List ℕ) × ℕ)
  read_loop rounds m hdr pos zero out = some (ok out, pos)
  read_loop zero m hdr pos (suc remaining) out = none
  read_loop (suc rounds) m hdr pos (suc remaining) out =
      elim (osfs_extent_lookup_block m (some hdr) (logical_block pos)) [
        | err _ ↦ some (err eio, pos)
        | ok hit ↦
            let chunk = min (suc remaining) (block_size - block_offset pos) in
            let bytes = read_bytes m (block_address hit.phys_block + block_offset pos) chunk in
            elim (user.copy_to_user (length out) bytes == 0) [
              | false ↦ some (err efault, pos)
              | true ↦ read_loop rounds m hdr (pos + chunk) (suc remaining - chunk) (out ++ bytes)
            ]
      ]

  -- The end of `osfs_extent_do_read`: only a full read moves the file position.
  abbrev pub read_end : SbInfo → ℕ → Result (List ℕ) × ℕ → ReadResult
  read_end sb ppos (err e, pos) = record { result = err e; ppos = ppos; sb = sb }
  read_end sb ppos (ok out, pos) = record { result = ok out; ppos = pos; sb = sb }

  -- A return that leaves everything as it was.
  abbrev pub stopped : SbInfo → ℕ → Result (List ℕ) → ReadResult
  stopped sb ppos r = record { result = r; ppos = ppos; sb = sb }

  unfoldable pub osfs_extent_do_read : SbInfo → Option ℕ → (len ppos : ℕ) → Option ReadResult
  osfs_extent_do_read sb none len ppos = some (record { result = err eio; ppos = ppos; sb = sb })
  osfs_extent_do_read sb (some ino) len ppos =
      let node = sb.inode_table ino in
      let m = sb.data_blocks in
      let stop = stopped sb ppos in
      if node.i_blocks == 0 || node.i_block == 0
      then some (stop (ok []))
      else elim (osfs_get_extent_header sb (some ino)) [
        | none ↦ some (stop (err eio))
        | some hdr ↦
            if not (header_magic m hdr == osfs_extent_magic)
            then (if node.i_size == 0
                then some (record {
                  result = ok [];
                  ppos = ppos;
                  sb = record sb { data_blocks = osfs_extent_reset_header m (some hdr) };
                })
                else some (stop (err eopnotsupp)))
            else if leb node.i_size ppos
            then some (stop (ok []))
            else let remaining =
                (if ltb node.i_size (ppos + len) then node.i_size - ppos else len) in
              Option.map (read_end sb ppos) (read_loop remaining m hdr ppos remaining [])
      ]

  -- `osfs_read` below the extent path: at most one block, at `i_block`.
  unfoldable pub read_direct : SbInfo → Option ℕ → (len ppos : ℕ) → Option ReadResult
  read_direct sb none len ppos = none
  read_direct sb (some ino) len ppos =
      let node = sb.inode_table ino in
      if node.i_blocks == 0
      then some (record { result = ok []; ppos = ppos; sb = sb })
      else if leb node.i_size ppos
      then some (record { result = ok []; ppos = ppos; sb = sb })
      else let len' = (if ltb node.i_size (ppos + len) then node.i_size - ppos else len) in
        let bytes = read_bytes sb.data_blocks (block_address node.i_block + ppos) len' in
        if user.copy_to_user 0 bytes == 0
        then some (record { result = ok bytes; ppos = ppos + len'; sb = sb })
        else some (record { result = err efault; ppos = ppos; sb = sb })

  -- Only `-EOPNOTSUPP` of the extent path leads on to the direct path.
  abbrev pub read_or_direct :
      SbInfo → Option ℕ → (len ppos : ℕ) → Option ReadResult → Option ReadResult
  read_or_direct sb ino len ppos none = none
  read_or_direct sb ino len ppos (some r) = elim r.result [
    | err eopnotsupp ↦ read_direct r.sb ino len ppos
    | _ ↦ some r
  ]

  unfoldable pub osfs_read : SbInfo → Inode → (len ppos : ℕ) → Option ReadResult
  osfs_read sb inode len ppos =
      if is_reg inode.i_mode
      then read_or_direct sb inode.i_private len ppos
          (osfs_extent_do_read sb inode.i_private len ppos)
      else read_direct sb inode.i_private len ppos
