-- ===== src/Osfs/File/Write.antt =====
-- lab4/file.c: `osfs_extent_do_write` and `osfs_write`.
use mathlib.Core.Option
use ncku_operating_system.Base.{
  ℕ, zero, suc, ◌+◌, ◌-◌, ◌%◌, true, false, Option, none, some, List, [], ◌∷◌, ltb, leb, ◌==◌,
  if◌then◌else◌, update, inc32, u32_mod, length, take, drop, min,
}
use ncku_operating_system.Osfs.Types.{
  eio, einval, efault, enospc, eopnotsupp, Result, ok, err, Inode, SbInfo, block_size, is_reg,
}
use ncku_operating_system.Osfs.Alloc.{osfs_alloc_data_block}
use ncku_operating_system.Osfs.Extent.{
  block_address, osfs_extent_total_blocks, osfs_extent_lookup_block, osfs_extent_append_block,
  osfs_extent_ensure_table,
}
use ncku_operating_system.Osfs.File.{UserCopy, logical_block, block_offset, WriteResult}

-- The block of the current position, the count of blocks and the state after it has been found.
pub record Located : Type 0 where
  pub phys : Result ℕ
  pub total_blocks : ℕ
  pub sb : SbInfo
  pub inode : Inode

-- The second lookup, after a block has been appended or not.
unfoldable pub located_after_append : (hdr logical total : ℕ) → Result ℕ × SbInfo × Inode → Located
located_after_append hdr logical total (err e, sb, inode) = record {
  phys = err e;
  total_blocks = total;
  sb = sb;
  inode = inode;
}
located_after_append hdr logical total (ok block, sb, inode) = record {
  phys = elim (osfs_extent_lookup_block sb.data_blocks (some hdr) logical) [
    | ok hit ↦ ok hit.phys_block
    | err e ↦ err e
  ];
  total_blocks = inc32 total;
  sb = sb;
  inode = inode;
}

-- The first part of a round of the write loop: look the block up, or append one.
unfoldable pub locate_block : (ino hdr logical total : ℕ) → SbInfo → Inode → Located
locate_block ino hdr logical total sb inode =
    elim (osfs_extent_lookup_block sb.data_blocks (some hdr) logical) [
      | ok hit ↦ record { phys = ok hit.phys_block; total_blocks = total; sb = sb; inode = inode }
      | err _ ↦
          if ltb total logical
          then record { phys = err einval; total_blocks = total; sb = sb; inode = inode }
          else located_after_append hdr logical total
              (osfs_extent_append_block sb (some ino) inode (some hdr))
    ]

module _ (user : UserCopy) where
  -- The `while` of `osfs_extent_do_write`, with `rest` for the bytes of the buffer from `done` on.
  unfoldable pub write_loop :
      (rounds : ℕ)
      → (ino hdr pos done total : ℕ) → (rest : List ℕ) → SbInfo
      → Inode
      → Option WriteResult
  write_loop rounds ino hdr pos done total [] sb inode =
      some (record { result = ok done; ppos = pos; sb = sb; inode = inode })
  write_loop zero ino hdr pos done total (x ∷ rest) sb inode = none
  write_loop (suc rounds) ino hdr pos done total (x ∷ rest) sb inode =
      let l = locate_block ino hdr (logical_block pos) total sb inode in
      elim l.phys [
        | err e ↦ some (record { result = err e; ppos = pos; sb = l.sb; inode = l.inode })
        | ok phys ↦
            let chunk = min (length (x ∷ rest)) (block_size - block_offset pos) in
            let (left, m) =
              user.copy_from_user l.sb.data_blocks (block_address phys + block_offset pos)
                (take chunk (x ∷ rest)) in
            let sb' = record (l.sb) { data_blocks = m } in
            elim (left == 0) [
              | false ↦ some (record { result = err efault; ppos = pos; sb = sb'; inode = l.inode })
              | true ↦
                  write_loop rounds ino hdr (pos + chunk) (done + chunk) l.total_blocks
                    (drop chunk (x ∷ rest)) sb' l.inode
            ]
      ]

  -- The end of `osfs_extent_do_write`: size, times and file position, after a full write only.
  unfoldable pub write_end : (ino ppos : ℕ) → WriteResult → WriteResult
  write_end ino ppos w = elim w.result [
    | err e ↦ record w { ppos = ppos }
    | ok done ↦
        let node = w.sb.inode_table ino in
        let size = (if ltb node.i_size w.ppos then w.ppos % u32_mod else node.i_size) in
        let node' = record node {
          i_size = size;
          i_mtime = user.current_time;
          i_ctime = user.current_time;
        } in
        record {
          result = ok done;
          ppos = w.ppos;
          sb = record (w.sb) { inode_table = update w.sb.inode_table ino node' };
          inode = record (w.inode) {
            i_size = (if ltb node.i_size w.ppos then size else w.inode.i_size);
            i_mtime = user.current_time;
            i_ctime = user.current_time;
          };
        }
  ]

  -- `osfs_extent_do_write` after `osfs_extent_ensure_table`, given what that returns.
  unfoldable pub write_with_table :
      (ino : ℕ) → (buf : List ℕ) → (ppos : ℕ) → Result ℕ × SbInfo × Inode → Option WriteResult
  write_with_table ino buf ppos (err e, sb, inode) =
      some (record { result = err e; ppos = ppos; sb = sb; inode = inode })
  write_with_table ino buf ppos (ok hdr, sb, inode) = Option.map (write_end ino ppos) (
      write_loop (length buf) ino hdr ppos 0 (osfs_extent_total_blocks sb.data_blocks (some hdr))
        buf sb inode)

  unfoldable pub osfs_extent_do_write :
      SbInfo → Option ℕ → Inode → (buf : List ℕ) → (ppos : ℕ) → Option WriteResult
  osfs_extent_do_write sb none inode buf ppos =
      some (record { result = err eio; ppos = ppos; sb = sb; inode = inode })
  osfs_extent_do_write sb (some ino) inode buf ppos =
      write_with_table ino buf ppos (osfs_extent_ensure_table sb (some ino) inode)

  -- `osfs_write` below the extent path, from its third step on: at most one block, at `i_block`.
  unfoldable pub write_direct_at :
      (ino : ℕ) → (buf : List ℕ) → (ppos : ℕ) → SbInfo → Inode → WriteResult
  write_direct_at ino buf ppos sb inode =
      let node = sb.inode_table ino in
      if leb block_size ppos
      then record { result = err enospc; ppos = ppos; sb = sb; inode = inode }
      else let len =
          (if ltb block_size (ppos + length buf) then block_size - ppos else length buf) in
        let (left, m) =
          user.copy_from_user sb.data_blocks (block_address node.i_block + ppos) (take len buf) in
        let sb' = record sb { data_blocks = m } in
        if left == 0
        then write_end ino ppos
            (record { result = ok len; ppos = ppos + len; sb = sb'; inode = inode })
        else record { result = err efault; ppos = ppos; sb = sb'; inode = inode }

  -- Its second step, given the allocator's result.
  unfoldable pub write_direct_allocated :
      (ino : ℕ) → (buf : List ℕ) → (ppos : ℕ) → Inode → Result ℕ × SbInfo → WriteResult
  write_direct_allocated ino buf ppos inode (err e, sb) = record {
    result = err e;
    ppos = ppos;
    sb = sb;
    inode = inode;
  }
  write_direct_allocated ino buf ppos inode (ok block, sb) =
      write_direct_at ino buf ppos
        (record sb {
          inode_table =
              update sb.inode_table ino
                (record (sb.inode_table ino) { i_block = block; i_blocks = 1 });
        })
        (record inode { i_blocks = 1 })

  unfoldable pub write_direct :
      SbInfo → Option ℕ → Inode → (buf : List ℕ) → (ppos : ℕ) → WriteResult
  write_direct sb none inode buf ppos = record {
    result = err eio;
    ppos = ppos;
    sb = sb;
    inode = inode;
  }
  write_direct sb (some ino) inode buf ppos =
      if (sb.inode_table ino).i_blocks == 0
      then write_direct_allocated ino buf ppos inode (osfs_alloc_data_block sb)
      else write_direct_at ino buf ppos sb inode

  abbrev pub write_or_direct :
      Option ℕ → (buf : List ℕ) → (ppos : ℕ) → Option WriteResult → Option WriteResult
  write_or_direct ino buf ppos none = none
  write_or_direct ino buf ppos (some w) = elim w.result [
    | err eopnotsupp ↦ some (write_direct w.sb ino w.inode buf ppos)
    | _ ↦ some w
  ]

  unfoldable pub osfs_write : SbInfo → Inode → (buf : List ℕ) → (ppos : ℕ) → Option WriteResult
  osfs_write sb inode buf ppos =
      if is_reg inode.i_mode
      then write_or_direct inode.i_private buf ppos
          (osfs_extent_do_write sb inode.i_private inode buf ppos)
      else some (write_direct sb inode.i_private inode buf ppos)
