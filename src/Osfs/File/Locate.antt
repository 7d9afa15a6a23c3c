-- ===== src/Osfs/File/Locate.antt =====
-- lab4/file.c: finding or appending the block of a position that lies in the file or at its end.
use ncku_operating_system.Base.{
  ℕ, ◌+◌, ◌*◌, ◌/◌, ◌%◌, ◌≤◌, ◌<◌, ◌≡◌, refl, inl, inr, [], ◌∷◌, ◌++◌, Option, none, some, arith,
  length, get_elem?, length-append, ap, ◌∙◌, sym, All-get, All-mono, u32_mod, ltb, false,
  Bool-cases, le→ltb, get_elem?-append_left, get_elem?-append_right, get_elem?-of_lt,
}
use ncku_operating_system.Osfs.Types.{Errno, enospc, Result, ok, err, Inode, SbInfo, block_size}
use ncku_operating_system.Osfs.Extent.{Hit, osfs_extent_lookup_block, osfs_extent_append_block}
use ncku_operating_system.Osfs.Extent.Blocks.{phys, found_or_enoent, osfs_extent_lookup_block_lem}
use ncku_operating_system.Osfs.Extent.State.{
  IsOwned, IsFile, file_blocks, SameNodes, IsFull, Appended, AppendOutcome, length-file_blocks-lt,
  osfs_extent_append_block_lem, get_elem?-snoc,
}
use ncku_operating_system.Osfs.File.Write.{Located, locate_block, located_after_append}
use ncku_operating_system.Osfs.File.Content.{file_byte, file_byte-at, Written, Written-nil}

-- Appending a block writes no byte of the file.
module _ {sb sb' : SbInfo} {t ino block : ℕ} (pos : ℕ) (f : IsFile sb t)
    (a : Appended sb sb' t ino block) where
  kept-byte :
      (p : ℕ) → p < length (file_blocks sb t) * block_size → file_byte sb' t p ≡ file_byte sb t p
  kept-byte p h =
      let (b, e) = get_elem?-of_lt (file_blocks sb t) (p / block_size) (omega arith) in
      let own = All-get (IsOwned sb t) (file_blocks sb t) (p / block_size) f.owned e in
      let e' : get_elem? (file_blocks sb' t) (p / block_size) ≡ some b = rw a.blocks (
        get_elem?-append_left (file_blocks sb t) (block ∷ []) (p / block_size) (omega arith) ∙ e) in
      file_byte-at sb' t p e'
      ∙ ap some (a.outside (b * block_size + p % block_size) (omega (arith, own.2)))
      ∙ sym (file_byte-at sb t p e)

  Appended-Written : Written sb sb' t pos []
  Appended-Written = record {
    file = a.file;
    longer = rw a.blocks (omega (arith, length-append (file_blocks sb t) (block ∷ [])));
    inside = λ k c e. absurd (cc);
    outside = λ p o h. kept-byte p h;
    origin = λ i b e. elim (get_elem?-snoc (file_blocks sb t) block i b (rw a.blocks at e)) [
      | inl old ↦ inl old
      | inr new ↦ inr (rw new.1 a.was_free)
    ];
    still_used = λ b set. rw a.bitmap (ground arith);
    elsewhere = λ b o h set ne other. a.outside (b * block_size + o) (omega arith);
  }

-- A lookup in a file.
pub lookup-IsFile :
    (sb : SbInfo) (t idx : ℕ)
    → IsFile sb t
    → idx < u32_mod
    → phys (osfs_extent_lookup_block sb.data_blocks (some (t * block_size)) idx)
      ≡ found_or_enoent (get_elem? (file_blocks sb t) idx)
lookup-IsFile sb t idx f h =
    osfs_extent_lookup_block_lem sb.data_blocks (t * block_size) idx
      (record { is_magic = f.table.is_magic; count_fits = f.table.count_fits })
      (All-mono (IsOwned sb t) (file_blocks sb t) (λ b o. omega (arith, f.space, o.0)) f.owned) h

-- A found block is the one of the list; a failed lookup is past the end of the list.
pub found-some :
    (r : Result Hit) (o : Option ℕ) {hit : Hit}
    → phys r ≡ found_or_enoent o
    → r ≡ ok hit
    → o ≡ some hit.phys_block
found-some r none {hit} e q = absurd (cc (ap phys q))
found-some r (some b) {hit} e q = cc (ap phys q)

pub found-none :
    (r : Result Hit) (o : Option ℕ) {x : Errno} → phys r ≡ found_or_enoent o → r ≡ err x → o ≡ none
found-none r none e q = refl
found-none r (some b) e q = absurd (cc (ap phys q))

-- The two outcomes of `locate_block` at position `pos`.
pub record LocatedAt (sb : SbInfo) (t ino pos : ℕ) (l : Located) (block : ℕ) : Type 0 where
  pub written : Written sb l.sb t pos []
  pub at : get_elem? (file_blocks l.sb t) (pos / block_size) ≡ some block
  pub total : l.total_blocks ≡ length (file_blocks l.sb t)
  pub counter_fits : l.sb.nr_free_blocks < u32_mod
  pub nodes : SameNodes t ino sb l.sb

abbrev pub LocateOutcome : SbInfo → ℕ → ℕ → ℕ → Located → Result ℕ → Type 0
LocateOutcome sb t ino pos l (ok block) = LocatedAt sb t ino pos l block
LocateOutcome sb t ino pos l (err e) = (e ≡ enospc) × (l.sb ≡ sb) × IsFull sb t

pub SameNodes-refl : (t ino : ℕ) (sb : SbInfo) → SameNodes t ino sb sb
SameNodes-refl t ino sb = record {
  blocks = λ c. c;
  size = refl;
  table_block = refl;
  others = λ j ne. refl;
}

module _ (sb : SbInfo) (t ino pos total : ℕ) (inode : Inode) (f : IsFile sb t)
    (counted : sb.nr_free_blocks < u32_mod) (exact : total ≡ length (file_blocks sb t))
    (near : pos / block_size ≤ total) where
  abbrev hdr : ℕ
  hdr = t * block_size

  abbrev Outcome : Located → Type 0
  Outcome l = LocateOutcome sb t ino pos l l.phys

  -- The lookup after a block has been appended finds that block.
  located-Appended :
      (sb' : SbInfo) (inode' : Inode) (block : ℕ)
      → pos / block_size ≡ length (file_blocks sb t)
      → Appended sb sb' t ino block
      → Outcome (located_after_append hdr (pos / block_size) total (ok block, sb', inode'))
  unfolding located_after_append
  located-Appended sb' inode' block last a =
      go _ refl (
        lookup-IsFile sb' t (pos / block_size) a.file (omega (arith, length-file_blocks-lt sb t f)))
    where
      found : get_elem? (file_blocks sb' t) (pos / block_size) ≡ some block
      found =
          rw (a.blocks, last)
            (ap (get_elem? (file_blocks sb t ++ block ∷ [])) (omega arith)
              ∙ get_elem?-append_right (file_blocks sb t) (block ∷ []) 0)

      go :
          (r : Result Hit)
          → osfs_extent_lookup_block sb'.data_blocks (some hdr) (pos / block_size) ≡ r
          → phys (osfs_extent_lookup_block sb'.data_blocks (some hdr) (pos / block_size))
            ≡ found_or_enoent (get_elem? (file_blocks sb' t) (pos / block_size))
          → Outcome (located_after_append hdr (pos / block_size) total (ok block, sb', inode'))
      go (err x) q s = absurd (cc (found-none _ _ s q, found))
      go (ok hit) q s =
          rw (q, located_after_append)
            (record {
              written = Appended-Written pos f a;
              at = found-some _ _ s q;
              total = rw a.blocks (
                  omega (
                    arith,
                    length-append (file_blocks sb t) (block ∷ []),
                    length-file_blocks-lt sb t f,
                  ));
              counter_fits = a.counter_fits;
              nodes = a.nodes;
            })

  located-append :
      pos / block_size ≡ length (file_blocks sb t)
      → Outcome (
          located_after_append hdr
            (pos / block_size)
            total
            (osfs_extent_append_block sb (some ino) inode (some hdr)))
  unfolding located_after_append
  located-append last =
      go (osfs_extent_append_block sb (some ino) inode (some hdr))
        (osfs_extent_append_block_lem sb t ino inode f counted)
    where
      go :
          (r : Result ℕ × SbInfo × Inode)
          → AppendOutcome sb t ino inode r
          → Outcome (located_after_append hdr (pos / block_size) total r)
      go (ok block, sb', inode') a = located-Appended sb' inode' block last a.0
      go (err x, sb', inode') a = (a.0, a.1, a.3)

  pub locate_block_lem : Outcome (locate_block ino hdr (pos / block_size) total sb inode)
  unfolding locate_block
  locate_block_lem =
      go _ refl
        (lookup-IsFile sb t (pos / block_size) f (omega (arith, length-file_blocks-lt sb t f)))
    where
      go :
          (r : Result Hit)
          → osfs_extent_lookup_block sb.data_blocks (some hdr) (pos / block_size) ≡ r
          → phys (osfs_extent_lookup_block sb.data_blocks (some hdr) (pos / block_size))
            ≡ found_or_enoent (get_elem? (file_blocks sb t) (pos / block_size))
          → Outcome (locate_block ino hdr (pos / block_size) total sb inode)
      go (ok hit) q s =
          rw (q, locate_block)
            (record {
              written = Written-nil sb t pos f;
              at = found-some _ _ s q;
              total = exact;
              counter_fits = counted;
              nodes = SameNodes-refl t ino sb;
            })
      go (err x) q s = elim (Bool-cases (ltb (pos / block_size) total)) [
        | inl before ↦
            let (b, e) = get_elem?-of_lt (file_blocks sb t) (pos / block_size) (ground arith) in
            absurd (cc (found-none _ _ s q, e))
        | inr end ↦
            let far : ltb total (pos / block_size) ≡ false = le→ltb _ _ near in
            rw (q, locate_block, far) (located-append (ground arith))
      ]
