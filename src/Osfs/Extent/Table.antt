-- ===== src/Osfs/Extent/Table.antt =====
-- lab4/file.c: a well-formed extent table, and the change of its list of blocks when `extend_table`
-- adds a block.
use ncku_operating_system.Base.{
  ℕ, zero, suc, ◌+◌, ◌*◌, ◌≤◌, ◌<◌, ◌≡◌, refl, [], ◌∷◌, ◌++◌, arith, length, length-append, ap, ◌∙◌,
}
use mathlib.Core.List.{append_assoc, append-nil}
use ncku_operating_system.Osfs.Types.{Bytes, osfs_extent_magic, osfs_max_extents, block_size}
use ncku_operating_system.Osfs.Memory.Laws.{load32-congr}
use ncku_operating_system.Osfs.Extent.{
  header_magic, header_count, extent_at, extent_start, extent_len,
}
use ncku_operating_system.Osfs.Extent.Blocks.{span, length-span, blocks_from, block_map}

-- A table whose extents are not empty and lie below block `n`.
pub record IsTable (m : Bytes) (hdr n : ℕ) : Type 0 where
  pub is_magic : header_magic m hdr ≡ osfs_extent_magic
  pub count_fits : header_count m hdr ≤ osfs_max_extents
  pub runs :
      (i : ℕ)
      → i < header_count m hdr
      → (0 < extent_len m hdr i) × (extent_start m hdr i + extent_len m hdr i ≤ n)

-- Two memories agree on `rounds` extents from the `i`-th on.
abbrev pub SameExtents : Bytes → Bytes → ℕ → ℕ → ℕ → Type 0
SameExtents m m' hdr i rounds =
    (j : ℕ)
    → i ≤ j
    → j < i + rounds
    → (extent_start m' hdr j ≡ extent_start m hdr j) × (extent_len m' hdr j ≡ extent_len m hdr j)

pub blocks_from-congr :
    (m m' : Bytes) (hdr i rounds : ℕ)
    → SameExtents m m' hdr i rounds
    → blocks_from m' hdr i rounds ≡ blocks_from m hdr i rounds
unfolding blocks_from
blocks_from-congr m m' hdr i zero same = refl
blocks_from-congr m m' hdr i (suc rounds) same =
    let here = same i (omega arith) (omega arith) in
    rw (
      here.0,
      here.1,
      blocks_from-congr m m' hdr (suc i) rounds (λ j l h. same j (omega arith) (omega arith)),
    )

pub blocks_from-suc :
    (m : Bytes) (hdr i rounds j : ℕ)
    → i + rounds ≡ j
    → blocks_from m hdr i (suc rounds)
      ≡ blocks_from m hdr i rounds ++ span (extent_start m hdr j) (extent_len m hdr j)
unfolding blocks_from
blocks_from-suc m hdr i zero j e = let same : i ≡ j = omega arith in rw (same) (simp append-nil)
blocks_from-suc m hdr i (suc rounds) j e = rw (append_assoc) (
    ap (λ bs. span (extent_start m hdr i) (extent_len m hdr i) ++ bs)
      (blocks_from-suc m hdr (suc i) rounds j (omega arith)))

pub span-suc : (start len : ℕ) → span start (suc len) ≡ span start len ++ (start + len) ∷ []
unfolding span
span-suc start zero = ap (λ s. s ∷ []) (omega arith)
span-suc start (suc len) =
    ap (λ bs. start ∷ bs)
      (span-suc (suc start) len ∙ ap (λ s. span (suc start) len ++ s ∷ []) (omega arith))

pub span-one : (start : ℕ) → span start 1 ≡ start ∷ []
unfolding span
span-one start = refl

length-blocks_from-le :
    (m : Bytes) (hdr n i rounds : ℕ)
    → ((j : ℕ) → i ≤ j → j < i + rounds → extent_len m hdr j ≤ n)
    → length (blocks_from m hdr i rounds) ≤ rounds * n
unfolding blocks_from
length-blocks_from-le m hdr n i zero small = omega arith
length-blocks_from-le m hdr n i (suc rounds) small =
    let here = small i (omega arith) (omega arith) in
    let rest =
      length-blocks_from-le m hdr n (suc i) rounds λ j l h. small j (omega arith) (omega arith) in
    omega (
      arith,
      length-append (span (extent_start m hdr i) (extent_len m hdr i))
          (blocks_from m hdr (suc i) rounds),
      length-span (extent_start m hdr i) (extent_len m hdr i),
    )

-- A table has at most `osfs_max_extents` extents of at most `n` blocks each.
pub length-block_map-le :
    (m : Bytes) (hdr n : ℕ) → IsTable m hdr n → length (block_map m hdr) ≤ osfs_max_extents * n
unfolding block_map
length-block_map-le m hdr n t =
    let count = header_count m hdr in
    let short : length (blocks_from m hdr 0 count) ≤ count * n =
      length-blocks_from-le m hdr n 0 count λ j l h. omega (arith, t.runs j (omega arith)) in
    let wide : count * n ≤ osfs_max_extents * n = grind (arith, t.count_fits) in omega arith

-- A change of memory that spares the block of the table spares the table.
module _ (m m' : Bytes) (hdr : ℕ)
    (same : (x : ℕ) → hdr ≤ x → x < hdr + block_size → m' x ≡ m x) where
  magic-congr : header_magic m' hdr ≡ header_magic m hdr
  magic-congr = load32-congr m m' hdr (λ x l h. same x l (omega arith))

  count-congr : header_count m' hdr ≡ header_count m hdr
  count-congr = load32-congr m m' (hdr + 4) (λ x l h. same x (omega arith) (omega arith))

  extents-congr : (n : ℕ) → n ≤ osfs_max_extents → SameExtents m m' hdr 0 n
  extents-congr n fits j _ below = (
    load32-congr m m' (extent_at hdr j) (λ x l h. same x (omega arith) (omega arith)),
    load32-congr m m' (extent_at hdr j + 4) (λ x l h. same x (omega arith) (omega arith)),
  )

  pub block_map-congr : header_count m hdr ≤ osfs_max_extents → block_map m' hdr ≡ block_map m hdr
  unfolding block_map
  block_map-congr fits =
      rw count-congr (
        blocks_from-congr m m' hdr 0 (header_count m hdr) (extents-congr (header_count m hdr) fits))

  pub IsTable-congr : (n : ℕ) → IsTable m hdr n → IsTable m' hdr n
  IsTable-congr n t = record {
    is_magic = magic-congr ∙ t.is_magic;
    count_fits = rw count-congr t.count_fits;
    runs = λ i h.
        let below : i < header_count m hdr = rw count-congr at h in
        let agree = extents-congr (header_count m hdr) t.count_fits i (omega arith) (omega arith) in
        rw (agree.0, agree.1) (t.runs i below);
  }
