-- ===== src/Osfs/Extent/Blocks.antt =====
-- lab4/file.c: the list of data blocks for which an extent table stands, in file order, and what the
-- lookup and the count of blocks answer in terms of it.
use ncku_operating_system.Base.{
  ℕ, zero, suc, ◌+◌, ◌-◌, ◌%◌, ◌≤◌, ◌<◌, ◌≡◌, refl, inl, inr, List, [], ◌∷◌, ◌++◌, Option, none,
  some, arith, length, get_elem?, length-append, get_elem?-append_left, ap, ◌∙◌, All, All-get,
  u32_mod, add32, sub32, ltb, ◌==◌, true, Bool-cases, le→ltb, ltb→lt, ltb→le, ==_iff, All-right,
  get_elem?-append_ge,
}
use ncku_operating_system.Osfs.Types.{
  Bytes, enoent, Result, ok, err, osfs_extent_magic, osfs_max_extents,
}
use ncku_operating_system.Osfs.Extent.{
  header_magic, header_count, extent_start, extent_len, Hit, find_extent, osfs_extent_lookup_block,
  sum_lens, osfs_extent_total_blocks,
}

-- The blocks `start`, `start + 1`, ..., `len` of them.
unfoldable pub span : ℕ → ℕ → List ℕ
span start zero = []
span start (suc len) = start ∷ span (suc start) len

pub length-span : (start len : ℕ) → length (span start len) ≡ len
unfolding span
length-span start zero = refl
length-span start (suc len) = ap suc (length-span (suc start) len)

pub get_elem?-span : (start len i : ℕ) → i < len → get_elem? (span start len) i ≡ some (start + i)
unfolding span
get_elem?-span start zero i h = absurd (omega arith)
get_elem?-span start (suc len) zero h = ap some (omega arith)
get_elem?-span start (suc len) (suc i) h =
    get_elem?-span (suc start) len i (omega arith) ∙ ap some (omega arith)

-- The blocks of `rounds` extents from the `i`-th on.
unfoldable pub blocks_from : Bytes → ℕ → (i rounds : ℕ) → List ℕ
blocks_from m hdr i zero = []
blocks_from m hdr i (suc rounds) =
    span (extent_start m hdr i) (extent_len m hdr i) ++ blocks_from m hdr (suc i) rounds

-- The blocks of the whole table: the block of the file's `k`-th kilobyte is the `k`-th element.
unfoldable pub block_map : Bytes → ℕ → List ℕ
block_map m hdr = blocks_from m hdr 0 (header_count m hdr)

-- A header that the code accepts.
pub record IsHeader (m : Bytes) (hdr : ℕ) : Type 0 where
  pub is_magic : header_magic m hdr ≡ osfs_extent_magic
  pub count_fits : header_count m hdr ≤ osfs_max_extents

-- The block number that a lookup stores.
abbrev pub phys : Result Hit → Result ℕ
phys (ok hit) = ok hit.phys_block
phys (err e) = err e

-- The answer of a lookup in a list of blocks.
abbrev pub found_or_enoent : Option ℕ → Result ℕ
found_or_enoent (some block) = ok block
found_or_enoent none = err enoent

abbrev pub Fits32 : ℕ → Type 0
Fits32 b = b < u32_mod

find_extent_lem :
    (m : Bytes) (hdr i rounds idx : ℕ)
    → idx < u32_mod
    → All Fits32 (blocks_from m hdr i rounds)
    → phys (find_extent m hdr i rounds idx)
      ≡ found_or_enoent (get_elem? (blocks_from m hdr i rounds) idx)
unfolding find_extent blocks_from
find_extent_lem m hdr i zero idx h f = refl
find_extent_lem m hdr i (suc rounds) idx h f =
    let s = extent_start m hdr i in
    let l = extent_len m hdr i in
    let rest = blocks_from m hdr (suc i) rounds in
    elim (Bool-cases (ltb idx l)) [
      | inl inside ↦
          let below : idx < l = ltb→lt idx l inside in
          let at : get_elem? (span s l ++ rest) idx ≡ some (s + idx) =
            get_elem?-append_left (span s l) rest idx (omega (arith, length-span s l))
            ∙ get_elem?-span s l idx below in
          let fits : s + idx < u32_mod = All-get Fits32 (span s l ++ rest) idx f at in
          rw (inside, at) (ap ok (omega arith))
      | inr outside ↦
          let above : l ≤ idx = ltb→le idx l outside in
          let at : get_elem? (span s l ++ rest) idx ≡ get_elem? rest (idx - l) =
            get_elem?-append_ge (span s l) rest idx (omega (arith, length-span s l))
            ∙ ap (λ n. get_elem? rest (idx - n)) (length-span s l) in
          let exact : sub32 idx l ≡ idx - l = omega arith in
          rw (outside, at, exact)
            (find_extent_lem m hdr (suc i) rounds (idx - l) (omega arith)
              (All-right Fits32 (span s l) rest f))
    ]

-- In a table with the magic number, a count that fits and 32-bit block numbers, the lookup of a 32-bit
-- index gives the block at that position of the list of all the extents' blocks, and `-ENOENT` past
-- the end of the list.
pub osfs_extent_lookup_block_lem :
    (m : Bytes) (hdr idx : ℕ)
    → IsHeader m hdr
    → All Fits32 (block_map m hdr)
    → idx < u32_mod
    → phys (osfs_extent_lookup_block m (some hdr) idx)
      ≡ found_or_enoent (get_elem? (block_map m hdr) idx)
unfolding osfs_extent_lookup_block block_map
osfs_extent_lookup_block_lem m hdr idx t f h =
    let magic : (header_magic m hdr == osfs_extent_magic) ≡ true = (==_iff _ _).1 t.is_magic in
    rw (magic, le→ltb osfs_max_extents (header_count m hdr) t.count_fits)
      (find_extent_lem m hdr 0 (header_count m hdr) idx h f)

sum_lens_lem :
    (m : Bytes) (hdr i rounds total : ℕ)
    → total < u32_mod
    → sum_lens m hdr i rounds total ≡ (total + length (blocks_from m hdr i rounds)) % u32_mod
unfolding sum_lens blocks_from
sum_lens_lem m hdr i zero total h = omega arith
sum_lens_lem m hdr i (suc rounds) total h =
    let s = extent_start m hdr i in
    let l = extent_len m hdr i in
    sum_lens_lem m hdr (suc i) rounds (add32 total l) (omega arith)
    ∙ omega (arith, length-append (span s l) (blocks_from m hdr (suc i) rounds), length-span s l)

-- In a table with the magic number and a count that fits, the count of blocks is the length of the
-- list of all the extents' blocks, modulo 2 ^ 32.
pub osfs_extent_total_blocks_lem :
    (m : Bytes) (hdr : ℕ)
    → IsHeader m hdr
    → osfs_extent_total_blocks m (some hdr) ≡ length (block_map m hdr) % u32_mod
unfolding osfs_extent_total_blocks block_map
osfs_extent_total_blocks_lem m hdr t =
    let magic : (header_magic m hdr == osfs_extent_magic) ≡ true = (==_iff _ _).1 t.is_magic in
    rw (magic, le→ltb osfs_max_extents (header_count m hdr) t.count_fits)
      (sum_lens_lem m hdr 0 (header_count m hdr) 0 (omega arith) ∙ omega arith)
