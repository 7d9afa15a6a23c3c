-- ===== src/Osfs/Extent/Append.antt =====
-- lab4/file.c: adding a block to an extent table appends it to the list of blocks.
use ncku_operating_system.Base.{
  ℕ, suc, ◌+◌, ◌-◌, ◌≤◌, ◌<◌, ◌≡◌, refl, inl, inr, [], ◌∷◌, ◌++◌, Option, none, some, arith, ap,
  ◌∙◌, sym, subst, ◌⊎◌, u32_mod, add32, inc32, ltb, leb, ◌==◌, if◌then◌else◌, Bool-cases, ==_iff,
  ◌≡⟨◌⟩◌, ◌∎,
}
use mathlib.Core.List.{append_assoc}
use ncku_operating_system.Osfs.Types.{Bytes, osfs_max_extents, block_size}
use ncku_operating_system.Osfs.Memory.{load32, store32}
use ncku_operating_system.Osfs.Memory.Laws.{load32-store32, load32-store32_ne, store32-outside}
use ncku_operating_system.Osfs.Extent.{
  header_magic, header_count, extent_at, extent_start, extent_len, extend_table,
}
use ncku_operating_system.Osfs.Extent.Blocks.{span, blocks_from, block_map}
use ncku_operating_system.Osfs.Extent.Table.{
  IsTable, SameExtents, blocks_from-congr, blocks_from-suc, span-suc, span-one,
}

-- Lengthening the last extent, the `k`-th.
module _ (m : Bytes) (hdr k l : ℕ) where
  abbrev lengthened : Bytes
  lengthened = store32 m (extent_at hdr k + 4) l

  lengthened-same : SameExtents m lengthened hdr 0 k
  lengthened-same j _ h = (
    load32-store32_ne m (extent_at hdr j) (extent_at hdr k + 4) l (omega arith),
    load32-store32_ne m (extent_at hdr j + 4) (extent_at hdr k + 4) l (omega arith),
  )

  lengthened-start : extent_start lengthened hdr k ≡ extent_start m hdr k
  lengthened-start = load32-store32_ne m (extent_at hdr k) (extent_at hdr k + 4) l (omega arith)

  lengthened-len : l < u32_mod → extent_len lengthened hdr k ≡ l
  lengthened-len h = load32-store32 m (extent_at hdr k + 4) l h

  lengthened-magic : header_magic lengthened hdr ≡ header_magic m hdr
  lengthened-magic = load32-store32_ne m hdr (extent_at hdr k + 4) l (omega arith)

  lengthened-count : header_count lengthened hdr ≡ header_count m hdr
  lengthened-count = load32-store32_ne m (hdr + 4) (extent_at hdr k + 4) l (omega arith)

-- A new extent, the `k`-th, of one block.
module _ (m : Bytes) (hdr k block : ℕ) where
  abbrev with_start : Bytes
  with_start = store32 m (extent_at hdr k) block

  abbrev with_len : Bytes
  with_len = store32 with_start (extent_at hdr k + 4) 1

  abbrev with_extent : Bytes
  with_extent = store32 with_len (hdr + 4) (inc32 k)

  -- A word apart from the three that are written.
  with_extent-other :
      (a : ℕ)
      → (a + 4 ≤ extent_at hdr k) ⊎ (extent_at hdr k + 8 ≤ a)
      → (a + 4 ≤ hdr + 4) ⊎ (hdr + 8 ≤ a)
      → load32 with_extent a ≡ load32 m a
  with_extent-other a p q =
      load32-store32_ne with_len a (hdr + 4) (inc32 k) (omega arith)
      ∙ load32-store32_ne with_start a (extent_at hdr k + 4) 1 (omega arith)
      ∙ load32-store32_ne m a (extent_at hdr k) block (omega arith)

  with_extent-same : SameExtents m with_extent hdr 0 k
  with_extent-same j _ h = (
    with_extent-other (extent_at hdr j) (omega arith) (omega arith),
    with_extent-other (extent_at hdr j + 4) (omega arith) (omega arith),
  )

  with_extent-start : block < u32_mod → extent_start with_extent hdr k ≡ block
  with_extent-start h =
      load32-store32_ne with_len (extent_at hdr k) (hdr + 4) (inc32 k) (omega arith)
      ∙ load32-store32_ne with_start (extent_at hdr k) (extent_at hdr k + 4) 1 (omega arith)
      ∙ load32-store32 m (extent_at hdr k) block h

  with_extent-len : extent_len with_extent hdr k ≡ 1
  with_extent-len =
      load32-store32_ne with_len (extent_at hdr k + 4) (hdr + 4) (inc32 k) (omega arith)
      ∙ load32-store32 with_start (extent_at hdr k + 4) 1 (omega arith)

  with_extent-magic : header_magic with_extent hdr ≡ header_magic m hdr
  with_extent-magic = with_extent-other hdr (omega arith) (omega arith)

  with_extent-count : header_count with_extent hdr ≡ inc32 k
  with_extent-count = load32-store32 with_len (hdr + 4) (inc32 k) (omega arith)

-- The new table holds the old blocks and then `block`, is well formed, and nothing outside its data
-- block has changed.
pub record Extended (m m' : Bytes) (hdr n block : ℕ) : Type 0 where
  pub table : IsTable m' hdr n
  pub blocks : block_map m' hdr ≡ block_map m hdr ++ block ∷ []
  pub outside : (x : ℕ) → (x < hdr) ⊎ (hdr + block_size ≤ x) → m' x ≡ m x

module _ (m m' : Bytes) (hdr n k : ℕ) (t : IsTable m hdr n) (old : k ≤ header_count m hdr)
    (count : header_count m' hdr ≡ suc k) (room : suc k ≤ osfs_max_extents)
    (magic : header_magic m' hdr ≡ header_magic m hdr) (same : SameExtents m m' hdr 0 k)
    (run : (0 < extent_len m' hdr k) × (extent_start m' hdr k + extent_len m' hdr k ≤ n)) where
  changed-runs :
      (i : ℕ)
      → i < suc k
      → (0 < extent_len m' hdr i) × (extent_start m' hdr i + extent_len m' hdr i ≤ n)
  changed-runs i h = elim (Bool-cases (i == k)) [
    | inl last ↦
        let e : i ≡ k = (==_iff i k).0 last in
        subst (λ j. (0 < extent_len m' hdr j) × (extent_start m' hdr j + extent_len m' hdr j ≤ n))
          (sym e) run
    | inr other ↦
        let ne : i < k = ground arith in
        let agree = same i (omega arith) (omega arith) in
        rw (agree.0, agree.1) (t.runs i (omega arith))
  ]

  -- A table in which only the last extent is new or changed.
  changed-IsTable : IsTable m' hdr n
  changed-IsTable = record {
    is_magic = magic ∙ t.is_magic;
    count_fits = rw count room;
    runs = λ i h. changed-runs i (rw count at h);
  }

  changed-blocks :
      block_map m' hdr ≡ blocks_from m hdr 0 k ++ span (extent_start m' hdr k) (extent_len m' hdr k)
  unfolding block_map
  changed-blocks = rw count (
      blocks_from-suc m' hdr 0 k k (omega arith)
      ∙ ap (λ bs. bs ++ span (extent_start m' hdr k) (extent_len m' hdr k))
          (blocks_from-congr m m' hdr 0 k same))

module _ (m : Bytes) (hdr n block : ℕ) (t : IsTable m hdr n) (n_fits : n < u32_mod)
    (below : block < n) where
  lengthened-Extended :
      (k : ℕ)
      → header_count m hdr ≡ suc k
      → extent_start m hdr k + extent_len m hdr k ≡ block
      → Extended m (lengthened m hdr k (suc (extent_len m hdr k))) hdr n block
  unfolding block_map
  lengthened-Extended k e last =
      let l = extent_len m hdr k in
      let s = extent_start m hdr k in
      let m' = lengthened m hdr k (suc l) in
      let same = lengthened-same m hdr k (suc l) in
      let start = lengthened-start m hdr k (suc l) in
      let len = lengthened-len m hdr k (suc l) (omega arith) in
      let count = lengthened-count m hdr k (suc l) ∙ e in
      let magic = lengthened-magic m hdr k (suc l) in
      let run : (0 < extent_len m' hdr k) × (extent_start m' hdr k + extent_len m' hdr k ≤ n) =
        rw (start, len) (omega arith) in
      let room : suc k ≤ osfs_max_extents = omega (arith, t.count_fits) in
      let old : k ≤ header_count m hdr = omega arith in
      record {
        table = changed-IsTable m m' hdr n k t old count room magic same run;
        blocks =
            block_map m' hdr
            ≡⟨ changed-blocks m m' hdr n k t old count room magic same run ⟩
              blocks_from m hdr 0 k ++ span (extent_start m' hdr k) (extent_len m' hdr k)
            ≡⟨ rw (start, len, span-suc s l, last) refl ⟩
              blocks_from m hdr 0 k ++ (span s l ++ block ∷ [])
            ≡⟨ sym (append_assoc (blocks_from m hdr 0 k) (span s l) (block ∷ [])) ⟩
              (blocks_from m hdr 0 k ++ span s l) ++ block ∷ []
            ≡⟨ ap (λ bs. bs ++ block ∷ [])
                (sym (rw e (blocks_from-suc m hdr 0 k k (omega arith)))) ⟩
              block_map m hdr ++ block ∷ [] ∎;
        outside = λ x o. store32-outside m (extent_at hdr k + 4) _ x (omega (arith, t.count_fits));
      }

  with_extent-outside :
      (k x : ℕ)
      → k < osfs_max_extents
      → (x < hdr) ⊎ (hdr + block_size ≤ x)
      → with_extent m hdr k block x ≡ m x
  with_extent-outside k x room o =
      store32-outside (with_len m hdr k block) (hdr + 4) (inc32 k) x (omega arith)
      ∙ store32-outside (with_start m hdr k block) (extent_at hdr k + 4) 1 x (omega arith)
      ∙ store32-outside m (extent_at hdr k) block x (omega arith)

  with_extent-Extended :
      (k : ℕ)
      → header_count m hdr ≡ k
      → k < osfs_max_extents
      → Extended m (with_extent m hdr k block) hdr n block
  unfolding block_map
  with_extent-Extended k e room =
      let m' = with_extent m hdr k block in
      let same = with_extent-same m hdr k block in
      let start = with_extent-start m hdr k block (omega arith) in
      let len = with_extent-len m hdr k block in
      let count : header_count m' hdr ≡ suc k = with_extent-count m hdr k block ∙ omega arith in
      let magic = with_extent-magic m hdr k block in
      let run : (0 < extent_len m' hdr k) × (extent_start m' hdr k + extent_len m' hdr k ≤ n) =
        rw (start, len) (omega arith) in
      let old : k ≤ header_count m hdr = omega arith in
      record {
        table = changed-IsTable m m' hdr n k t old count room magic same run;
        blocks =
            block_map m' hdr
            ≡⟨ changed-blocks m m' hdr n k t old count room magic same run ⟩
              blocks_from m hdr 0 k ++ span (extent_start m' hdr k) (extent_len m' hdr k)
            ≡⟨ (rw (start, len, span-one block)) ⟩ blocks_from m hdr 0 k ++ block ∷ []
            ≡⟨ ap (λ c. blocks_from m hdr 0 c ++ block ∷ []) (sym e) ⟩
              block_map m hdr ++ block ∷ [] ∎;
        outside = λ x o. with_extent-outside k x room o;
      }

-- The outcome of `extend_table`: the block is appended, or the table is full.
abbrev pub Extends : Bytes → ℕ → ℕ → ℕ → Option Bytes → Type 0
Extends m hdr n block none = header_count m hdr ≡ osfs_max_extents
Extends m hdr n block (some m') = Extended m m' hdr n block

module _ (m : Bytes) (hdr n block : ℕ) (t : IsTable m hdr n) (n_fits : n < u32_mod)
    (below : block < n) where
  merged-Extended :
      (last : ℕ)
      → header_count m hdr ≡ suc last
      → add32 (extent_start m hdr last) (extent_len m hdr last) ≡ block
      → Extended m (store32 m (extent_at hdr last + 4) (inc32 (extent_len m hdr last))) hdr n block
  merged-Extended last e hit =
      let run = t.runs last (omega arith) in
      let len : inc32 (extent_len m hdr last) ≡ suc (extent_len m hdr last) = omega arith in
      rw len (lengthened-Extended m hdr n block t n_fits below last e (omega arith))

  fresh-Extends : Extends m hdr n block (
      if leb osfs_max_extents (header_count m hdr)
      then none
      else some (with_extent m hdr (header_count m hdr) block))
  fresh-Extends = elim (Bool-cases (leb osfs_max_extents (header_count m hdr))) [
    | inl full ↦ rw full (ground (arith, t.count_fits))
    | inr room ↦
        rw room (
          with_extent-Extended m hdr n block t n_fits below (header_count m hdr) refl
            (ground arith))
  ]

  pub extend_table_lem : Extends m hdr n block (extend_table m hdr block)
  unfolding extend_table
  extend_table_lem =
      let count = header_count m hdr in
      let last = count - 1 in
      elim (Bool-cases (ltb 0 count)) [
        | inr empty ↦ rw empty fresh-Extends
        | inl some_extent ↦
            elim (Bool-cases (add32 (extent_start m hdr last) (extent_len m hdr last) == block)) [
              | inl hit ↦
                  rw (some_extent, hit)
                    (merged-Extended last (ground arith) ((==_iff _ block).0 hit))
              | inr miss ↦ rw (some_extent, miss) fresh-Extends
            ]
      ]
