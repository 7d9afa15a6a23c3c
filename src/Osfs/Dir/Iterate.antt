-- ===== src/Osfs/Dir/Iterate.antt =====
-- lab4/dir.c: listing a directory.
use ncku_operating_system.Base.{
  ℕ, zero, suc, ◌+◌, ◌-◌, ◌%◌, u32_mod, ltb, Bool, List, ◌∷◌, Option, none, some, ◌==◌,
  if◌then◌else◌,
}
use ncku_operating_system.Osfs.Types.{Bytes, einval, Result, ok, err, OsfsInode, SbInfo}
use ncku_operating_system.Osfs.Memory.{read_bytes}
use ncku_operating_system.Osfs.Extent.{block_address}
use ncku_operating_system.Osfs.Dir.{strlen, text_limit, entry_at, entry_inode_no, dir_entry_count}

-- One entry as `dir_emit` gets it: the name and the inode number.
pub record Listed : Type 0 where
  pub text : List ℕ
  pub number : ℕ

-- `struct dir_context` with what has been emitted into it, the last first.
pub record DirContext : Type 0 where
  pub pos : ℕ
  pub emitted : List Listed

-- The kernel's `dir_emit` says whether the context has room for one more entry, `dir_emit_dots`
-- whether it had room for "." and "..", and how it left the context.
pub record Emit : Type 0 where
  pub dir_emit : List Listed → Listed → Bool
  pub dir_emit_dots : DirContext → Bool × DirContext

-- The first number that an `int` does not hold.
abbrev pub int_limit : ℕ
int_limit = 2147483648

abbrev pub listed_at : Bytes → ℕ → ℕ → Listed
listed_at m base i = record {
  text = read_bytes m (entry_at base i) (strlen text_limit m (entry_at base i));
  number = entry_inode_no m base i;
}

-- The loop over the entries from `i` on, `rounds` of them.
unfoldable pub iterate_loop :
    Emit → Bytes → ℕ → (i rounds : ℕ) → DirContext → Result (Unit {0}) × DirContext
iterate_loop k m base i zero ctx = (ok tt, ctx)
iterate_loop k m base i (suc rounds) ctx =
    let entry = listed_at m base i in
    if k.dir_emit ctx.emitted entry
    then iterate_loop k m base (suc i) rounds
        (record { pos = suc ctx.pos; emitted = entry ∷ ctx.emitted })
    else (err einval, ctx)

-- `i = ctx->pos - 2` as the 32 bits of an `int`.
abbrev pub start_index : (pos : ℕ) → ℕ
start_index pos = (pos + (u32_mod - 2)) % u32_mod

-- The listing after the dots; `none` where the index is negative as an `int` and the loop starts in front
-- of the directory's block.
unfoldable pub iterate_entries :
    Emit → SbInfo → OsfsInode → DirContext → Option (Result (Unit {0}) × DirContext)
iterate_entries k sb node ctx =
    let i = start_index ctx.pos in
    if ltb i int_limit
    then some (
        iterate_loop k sb.data_blocks (block_address node.i_block) i (dir_entry_count node - i) ctx)
    else none

-- `inode->i_private` points to entry `p` of the table.
unfoldable pub osfs_iterate :
    Emit → SbInfo → (p : ℕ) → DirContext → Option (Result (Unit {0}) × DirContext)
osfs_iterate k sb p ctx =
    if ctx.pos == 0
    then (let dots = k.dir_emit_dots ctx in
        if dots.0 then iterate_entries k sb (sb.inode_table p) dots.1 else some (ok tt, dots.1))
    else iterate_entries k sb (sb.inode_table p) ctx
