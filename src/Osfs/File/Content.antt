-- ===== src/Osfs/File/Content.antt =====
-- lab4/file.c: the bytes of a file, by position, and what storing a chunk in one of its blocks does
-- to them.
use ncku_operating_system.Base.{
  ℕ, ◌+◌, ◌-◌, ◌*◌, ◌/◌, ◌%◌, ◌≤◌, ◌<◌, ◌≡◌, ◌≢◌, refl, inl, inr, List, [], ◌++◌, Option, none,
  some, arith, length, get_elem?, length-append, ap, ◌∙◌, sym, subst, ◌⊎◌, All-get, ltb, ◌==◌, true,
  false, Bool-cases, ltb→lt, ltb→le, ==_iff, get_elem?-append_left, get_elem?-append_ge,
  get_elem?-lt, get_elem?-of_lt,
}
use ncku_operating_system.Osfs.Types.{Bytes, SbInfo, block_size}
use ncku_operating_system.Osfs.Memory.{write_bytes}
use ncku_operating_system.Osfs.Memory.Laws.{write_bytes-outside, write_bytes-inside}
use ncku_operating_system.Osfs.Extent.Table.{IsTable-congr, block_map-congr}
use ncku_operating_system.Osfs.Extent.State.{IsOwned, IsFile, file_blocks}

-- The byte at an offset in a block, if there is a block.
abbrev pub byte_in : Bytes → Option ℕ → ℕ → Option ℕ
byte_in m none offset = none
byte_in m (some block) offset = some (m (block * block_size + offset))

-- The byte at position `p` of the file whose table is in block `t`; `none` past its last block.
unfoldable pub file_byte : SbInfo → ℕ → ℕ → Option ℕ
file_byte sb t p =
    byte_in sb.data_blocks (get_elem? (file_blocks sb t) (p / block_size)) (p % block_size)

-- Bytes `bs` at position `pos` have replaced what was there, and blocks that were free may have been
-- added to the file. Every block of anything else is as before.
pub record Written (sb sb' : SbInfo) (t pos : ℕ) (bs : List ℕ) : Type 0 where
  pub file : IsFile sb' t
  pub longer : length (file_blocks sb t) ≤ length (file_blocks sb' t)
  pub inside : (k c : ℕ) → get_elem? bs k ≡ some c → file_byte sb' t (pos + k) ≡ some c
  pub outside :
      (p : ℕ)
      → (p < pos) ⊎ (pos + length bs ≤ p)
      → p < length (file_blocks sb t) * block_size
      → file_byte sb' t p ≡ file_byte sb t p
  pub origin :
      (i b : ℕ)
      → get_elem? (file_blocks sb' t) i ≡ some b
      → (get_elem? (file_blocks sb t) i ≡ some b) ⊎ (sb.block_bitmap b ≡ false)
  pub still_used : (b : ℕ) → sb.block_bitmap b ≡ true → sb'.block_bitmap b ≡ true
  pub elsewhere :
      (b o : ℕ)
      → o < block_size
      → sb.block_bitmap b ≡ true
      → b ≢ t
      → ((i : ℕ) → get_elem? (file_blocks sb t) i ≢ some b)
      → sb'.data_blocks (b * block_size + o) ≡ sb.data_blocks (b * block_size + o)

pub file_byte-lt :
    (sb : SbInfo) (t p : ℕ) {c : ℕ}
    → file_byte sb t p ≡ some c
    → p < length (file_blocks sb t) * block_size
unfolding file_byte
file_byte-lt sb t p e = go (get_elem? (file_blocks sb t) (p / block_size)) refl e
  where
    go :
        (o : Option ℕ) {c : ℕ}
        → get_elem? (file_blocks sb t) (p / block_size) ≡ o
        → byte_in sb.data_blocks o (p % block_size) ≡ some c
        → p < length (file_blocks sb t) * block_size
    go none e q = absurd (cc)
    go (some b) e q = omega (arith, get_elem?-lt (file_blocks sb t) (p / block_size) e)

-- Writing `xs` and then `ys` behind them is writing `xs ++ ys`.
module _ (sb sb₁ sb₂ : SbInfo) (t pos : ℕ) (xs ys : List ℕ) (w : Written sb sb₁ t pos xs)
    (v : Written sb₁ sb₂ t (pos + length xs) ys) where
  inside-append : (k c : ℕ) → get_elem? (xs ++ ys) k ≡ some c → file_byte sb₂ t (pos + k) ≡ some c
  inside-append k c e = elim (Bool-cases (ltb k (length xs))) [
    | inl first ↦
        let below = ltb→lt k (length xs) first in
        let mid = w.inside k c (sym (get_elem?-append_left xs ys k below) ∙ e) in
        v.outside (pos + k) (omega arith) (file_byte-lt sb₁ t (pos + k) mid) ∙ mid
    | inr second ↦
        let above = ltb→le k (length xs) second in
        ap (file_byte sb₂ t) (omega arith)
        ∙ v.inside (k - length xs) c (sym (get_elem?-append_ge xs ys k above) ∙ e)
  ]

  origin-append :
      (i b : ℕ)
      → get_elem? (file_blocks sb₂ t) i ≡ some b
      → (get_elem? (file_blocks sb t) i ≡ some b) ⊎ (sb.block_bitmap b ≡ false)
  origin-append i b e = elim (v.origin i b e) [
    | inl mid ↦ w.origin i b mid
    | inr free ↦ inr (elim (Bool-cases (sb.block_bitmap b)) [
      | inl set ↦ absurd (cc (w.still_used b set, free))
      | inr clear ↦ clear
    ])
  ]

  elsewhere-append :
      (b o : ℕ)
      → o < block_size
      → sb.block_bitmap b ≡ true
      → b ≢ t
      → ((i : ℕ) → get_elem? (file_blocks sb t) i ≢ some b)
      → sb₂.data_blocks (b * block_size + o) ≡ sb.data_blocks (b * block_size + o)
  elsewhere-append b o h set ne other =
      v.elsewhere b o h (w.still_used b set) ne
        (λ i e. elim (w.origin i b e) [ inl old ↦ other i old | inr free ↦ cc (set, free) ])
      ∙ w.elsewhere b o h set ne other

  pub Written-append : Written sb sb₂ t pos (xs ++ ys)
  Written-append = record {
    file = v.file;
    longer = omega (arith, w.longer, v.longer);
    inside = inside-append;
    outside = λ p o h.
        v.outside p (omega (arith, length-append xs ys)) (omega (arith, w.longer))
        ∙ w.outside p (omega (arith, length-append xs ys)) h;
    origin = origin-append;
    still_used = λ b set. v.still_used b (w.still_used b set);
    elsewhere = elsewhere-append;
  }

-- Writing nothing first makes no difference.
pub Written-nil_append :
    (sb sb₁ sb₂ : SbInfo) (t pos : ℕ) (ys : List ℕ)
    → Written sb sb₁ t pos []
    → Written sb₁ sb₂ t pos ys
    → Written sb sb₂ t pos ys
Written-nil_append sb sb₁ sb₂ t pos ys w v =
    Written-append sb sb₁ sb₂ t pos [] ys w (subst (λ p. Written sb₁ sb₂ t p ys) (omega arith) v)

pub Written-nil : (sb : SbInfo) (t pos : ℕ) → IsFile sb t → Written sb sb t pos []
Written-nil sb t pos f = record {
  file = f;
  longer = omega arith;
  inside = λ k c e. absurd (cc);
  outside = λ p o h. refl;
  origin = λ i b e. inl e;
  still_used = λ b set. set;
  elsewhere = λ b o h set ne other. refl;
}

pub file_byte-at :
    (sb : SbInfo) (t p : ℕ) {b : ℕ}
    → get_elem? (file_blocks sb t) (p / block_size) ≡ some b
    → file_byte sb t p ≡ some (sb.data_blocks (b * block_size + p % block_size))
unfolding file_byte
file_byte-at sb t p e = rw e

-- The state after bytes `bs` have been stored in `block` at the offset of position `pos`.
abbrev pub stored : SbInfo → (pos block : ℕ) → List ℕ → SbInfo
stored sb pos block bs = record sb {
  data_blocks = write_bytes sb.data_blocks (block * block_size + pos % block_size) bs;
}

-- A chunk stored inside the block of position `pos`.
module _ (sb : SbInfo) (t pos block : ℕ) (bs : List ℕ) (f : IsFile sb t)
    (at : get_elem? (file_blocks sb t) (pos / block_size) ≡ some block)
    (fits : pos % block_size + length bs ≤ block_size) where
  abbrev after : SbInfo
  after = stored sb pos block bs

  pub own : IsOwned sb t block
  own = All-get (IsOwned sb t) (file_blocks sb t) (pos / block_size) f.owned at

  -- Bytes of other blocks stay.
  stored-other :
      (b o : ℕ)
      → o < block_size
      → b ≢ block
      → after.data_blocks (b * block_size + o) ≡ sb.data_blocks (b * block_size + o)
  stored-other b o h ne = write_bytes-outside sb.data_blocks _ bs _ (omega arith)

  table-same :
      (x : ℕ)
      → t * block_size ≤ x
      → x < t * block_size + block_size
      → after.data_blocks x ≡ sb.data_blocks x
  table-same x l h = write_bytes-outside sb.data_blocks _ bs x (omega (arith, own.2))

  pub blocks-same : file_blocks after t ≡ file_blocks sb t
  blocks-same =
      block_map-congr sb.data_blocks after.data_blocks (t * block_size) table-same
        f.table.count_fits

  stored-IsFile : IsFile after t
  stored-IsFile = record {
    space = f.space;
    table_used = f.table_used;
    table =
        IsTable-congr sb.data_blocks after.data_blocks (t * block_size) table-same sb.block_count
          f.table;
    owned = rw blocks-same f.owned;
    distinct = rw blocks-same f.distinct;
  }

  stored-at :
      (p b : ℕ)
      → get_elem? (file_blocks sb t) (p / block_size) ≡ some b
      → file_byte after t p ≡ some (after.data_blocks (b * block_size + p % block_size))
  stored-at p b e = file_byte-at after t p (rw blocks-same e)

  stored-inside : (k c : ℕ) → get_elem? bs k ≡ some c → file_byte after t (pos + k) ≡ some c
  stored-inside k c e =
      let below = get_elem?-lt bs k e in
      let same_block : (pos + k) / block_size ≡ pos / block_size = omega arith in
      stored-at (pos + k) block (rw same_block at)
      ∙ ap some (
          ap after.data_blocks (omega arith)
          ∙ write_bytes-inside sb.data_blocks (block * block_size + pos % block_size) bs k e)

  stored-outside :
      (p : ℕ)
      → (p < pos) ⊎ (pos + length bs ≤ p)
      → p < length (file_blocks sb t) * block_size
      → file_byte after t p ≡ file_byte sb t p
  stored-outside p o h =
      let (b, e) = get_elem?-of_lt (file_blocks sb t) (p / block_size) (omega arith) in
      stored-at p b e
      ∙ ap some (elim (Bool-cases (b == block)) [
        | inl same ↦
            let hit : b ≡ block = (==_iff b block).0 same in
            let index : p / block_size ≡ pos / block_size =
              f.distinct (p / block_size) (pos / block_size) b e (rw hit at) in
            write_bytes-outside sb.data_blocks _ bs _ (omega arith)
        | inr other ↦ stored-other b (p % block_size) (omega arith) (ground arith)
      ])
      ∙ sym (file_byte-at sb t p e)

  pub stored-Written : Written sb after t pos bs
  stored-Written = record {
    file = stored-IsFile;
    longer = rw blocks-same (omega arith);
    inside = stored-inside;
    outside = stored-outside;
    origin = λ i b e. inl (rw blocks-same at e);
    still_used = λ b set. set;
    elsewhere =
        λ b o h set ne other. stored-other b o h (λ same. other (pos / block_size) (rw same at));
  }
