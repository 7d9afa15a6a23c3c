-- ===== src/Osfs/File/Chunk.antt =====
-- lab4/file.c: one round of the loop of `osfs_extent_do_write`, from a file that is well formed.
use ncku_operating_system.Base.{
  ℕ, ◌+◌, ◌-◌, ◌*◌, ◌/◌, ◌%◌, ◌≤◌, ◌<◌, ◌≡◌, ◌≢◌, List, Option, some, arith, length, ap, ◌∙◌, sym,
  subst, ◌⊎◌, u32_mod, get_elem?, get_elem?-lt, take, drop, length-take, min,
}
use ncku_operating_system.Osfs.Types.{Bytes, enospc, efault, Result, ok, err, SbInfo, block_size}
use ncku_operating_system.Osfs.Memory.{write_bytes}
use ncku_operating_system.Osfs.Extent.{block_address}
use ncku_operating_system.Osfs.Extent.State.{IsOwned, IsFile, IsFull, file_blocks, SameNodes}
use ncku_operating_system.Osfs.File.{UserCopy, WriteResult, block_offset}
use ncku_operating_system.Osfs.File.Write.{Located}
use ncku_operating_system.Osfs.File.Content.{
  Written, own, blocks-same, Written-nil_append, stored, stored-Written,
}
use ncku_operating_system.Osfs.File.Locate.{LocatedAt}

-- What the kernel promises of `copy_from_user`: if it could copy everything, the bytes of the buffer
-- are in place and nothing else has changed.
abbrev pub CopiesFrom : UserCopy → Type 0
CopiesFrom user =
    (m : Bytes) (a : ℕ) (bs : List ℕ)
    → (user.copy_from_user m a bs).0 ≡ 0
    → (user.copy_from_user m a bs).1 ≡ write_bytes m a bs

-- In state `sb` the copy of a round of the loop at position `pos` fails: of as many bytes of `rest` as the
-- block of that position has room for, to their place in the block.
abbrev pub FaultsAt : UserCopy → SbInfo → (t pos : ℕ) → List ℕ → Type 0
FaultsAt user sb t pos rest =
    (block : ℕ) × (get_elem? (file_blocks sb t) (pos / block_size) ≡ some block)
    × ((user.copy_from_user sb.data_blocks (block_address block + block_offset pos)
          (take (min (length rest) (block_size - block_offset pos)) rest)).0
        ≢ 0)

-- In the course of writing `rest` at `pos`, when its first `part` bytes have been written, the next copy
-- fails.
pub record FaultsFrom (user : UserCopy) (sb : SbInfo) (t pos : ℕ) (rest : List ℕ) : Type 0 where
  pub part : ℕ
  pub short : part < length rest
  pub before : SbInfo
  pub written : Written sb before t pos (take part rest)
  pub fault : FaultsAt user before t (pos + part) (drop part rest)

-- The outcomes of writing `rest` at `pos`: all of it is in place; or the disk or the table is full
-- after a first part of it; or the buffer could not be read.
abbrev pub WriteOutcome :
    UserCopy → SbInfo → (t ino pos done : ℕ) → List ℕ → WriteResult → Result ℕ → Type 0
WriteOutcome user sb t ino pos done rest w (ok n) =
    (n ≡ done + length rest)
    × (w.ppos ≡ pos + length rest)
    × Written sb w.sb t pos rest
    × SameNodes t ino sb w.sb
WriteOutcome user sb t ino pos done rest w (err e) =
    ((e ≡ enospc) × record {
      part : ℕ;
      short : part < length rest;
      full : IsFull w.sb t;
      written : Written sb w.sb t pos (take part rest);
      nodes : SameNodes t ino sb w.sb;
    })
    ⊎ ((e ≡ efault) × FaultsFrom user sb t pos rest)

-- A loop that returns, and what it returns.
abbrev pub Writes : UserCopy → SbInfo → (t ino pos done : ℕ) → List ℕ → Option WriteResult → Type 0
Writes user sb t ino pos done rest o =
    (w : WriteResult) × (o ≡ some w) × WriteOutcome user sb t ino pos done rest w w.result

pub SameNodes-trans :
    {t ino : ℕ} (sb sb₁ sb₂ : SbInfo)
    → SameNodes t ino sb sb₁
    → SameNodes t ino sb₁ sb₂
    → SameNodes t ino sb sb₂
SameNodes-trans sb sb₁ sb₂ a b = record {
  blocks = λ c. b.blocks (a.blocks c);
  size = b.size ∙ a.size;
  table_block = b.table_block ∙ a.table_block;
  others = λ j ne. b.others j ne ∙ a.others j ne;
}

module _ (user : UserCopy) (copies : CopiesFrom user) (t ino : ℕ) where
  abbrev hdr : ℕ
  hdr = t * block_size

  -- What a round of the loop needs.
  pub record Ready (sb : SbInfo) (pos total : ℕ) : Type 0 where
    pub file : IsFile sb t
    pub counted : sb.nr_free_blocks < u32_mod
    pub exact : total ≡ length (file_blocks sb t)
    pub near : pos / block_size ≤ total

  -- One chunk, in the state in which its block has been located.
  module _ (sb : SbInfo) (pos total : ℕ) (rest : List ℕ) (r : Ready sb pos total) (l : Located)
      (block : ℕ) (at : LocatedAt sb t ino pos l block) where
    abbrev pub chunk : ℕ
    chunk = min (length rest) (block_size - block_offset pos)

    abbrev pub piece : List ℕ
    piece = take chunk rest

    abbrev pub copy : ℕ × Bytes
    copy = user.copy_from_user l.sb.data_blocks (block_address block + block_offset pos) piece

    abbrev pub after : SbInfo
    after = record (l.sb) { data_blocks = copy.1 }

    pub length-piece : length piece ≡ chunk
    length-piece = omega (arith, length-take chunk rest)

    located : IsOwned l.sb t block
    located = own l.sb t pos block piece at.written.file at.at (omega (arith, length-piece))

    memory :
        copy.0 ≡ 0
        → copy.1 ≡ write_bytes l.sb.data_blocks (block * block_size + pos % block_size) piece
    memory done =
        let address : block_address block ≡ block * block_size =
          omega (arith, at.written.file.space, located.0) in
        copies l.sb.data_blocks (block_address block + block_offset pos) piece done
        ∙ ap (λ a. write_bytes l.sb.data_blocks (a + pos % block_size) piece) address

    after-stored : copy.0 ≡ 0 → stored l.sb pos block piece ≡ after
    after-stored done = ap (λ m. record (l.sb) { data_blocks = m }) (sym (memory done))

    pub after-Written : copy.0 ≡ 0 → Written sb after t pos piece
    after-Written done = Written-nil_append sb l.sb after t pos piece at.written (
        subst (λ s. Written l.sb s t pos piece) (after-stored done)
          (stored-Written l.sb t pos block piece at.written.file at.at
            (omega (arith, length-piece))))

    after-blocks : copy.0 ≡ 0 → file_blocks after t ≡ file_blocks l.sb t
    after-blocks done =
        subst (λ s. file_blocks s t ≡ file_blocks l.sb t) (after-stored done)
          (blocks-same l.sb t pos block piece at.written.file at.at (omega (arith, length-piece)))

    pub after-Ready : copy.0 ≡ 0 → Ready after (pos + chunk) l.total_blocks
    after-Ready done = record {
      file = (after-Written done).file;
      counted = at.counter_fits;
      exact = rw (after-blocks done) at.total;
      near = omega (arith, at.total, get_elem?-lt (file_blocks l.sb t) (pos / block_size) at.at);
    }

    pub after-nodes : copy.0 ≡ 0 → SameNodes t ino sb after
    after-nodes done = record {
      blocks = λ c. rw (after-blocks done) (at.nodes.blocks c);
      size = at.nodes.size;
      table_block = at.nodes.table_block;
      others = at.nodes.others;
    }
