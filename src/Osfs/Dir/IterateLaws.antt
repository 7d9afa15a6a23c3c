-- ===== src/Osfs/Dir/IterateLaws.antt =====
-- lab4/dir.c: what `osfs_iterate` lists, and where it stops.
use ncku_operating_system.Base.{
  ℕ, zero, suc, ◌+◌, ◌*◌, ◌-◌, ◌<◌, ◌≡◌, refl, ◌⊎◌, inl, inr, true, false, Bool-cases, List, [],
  ◌∷◌, some, arith, ◌==◌, ltb, length, get_elem?, take, drop, length-drop, u32_mod, ap, ◌∙◌, sym,
  subst,
}
use mathlib.Core.List.{reverse_aux}
use ncku_operating_system.Osfs.Types.{Bytes, einval, Result, ok, err, SbInfo, inode_no_offset}
use ncku_operating_system.Osfs.Memory.{read_bytes, load32}
use ncku_operating_system.Osfs.Extent.{block_address}
use ncku_operating_system.Osfs.Dir.{strlen, text_limit, entry_at, put_entry, dir_entry_count}
use ncku_operating_system.Osfs.Dir.Names.{IsText, strlen-text, name_at, nul_at, put_entry-inode_no}
use ncku_operating_system.Osfs.Dir.Iterate.{
  Listed, DirContext, Emit, int_limit, listed_at, start_index, iterate_loop, iterate_entries,
  osfs_iterate,
}

-- Entry `i` of the directory at `base` is `e`: the name and a NUL stand at its start, and the four bytes
-- of the number, the least significant first, at its end.
pub record IsEntry (m : Bytes) (base i : ℕ) (e : Listed) : Type 0 where
  pub text : IsText e.text
  pub short : length e.text < 255
  pub name : (k c : ℕ) → get_elem? e.text k ≡ some c → m (entry_at base i + k) ≡ c
  pub nul : m (entry_at base i + length e.text) ≡ 0
  pub number :
      let a = entry_at base i + inode_no_offset in
      e.number ≡ m a + 256 * m (a + 1) + 65536 * m (a + 2) + 16777216 * m (a + 3)

-- The entries from `i` on are the ones of the list.
abbrev pub Holds : Bytes → (base i : ℕ) → List Listed → Type 0
Holds m base i [] = Unit {0}
Holds m base i (e ∷ es) = IsEntry m base i e × Holds m base (suc i) es

-- An entry that `osfs_add_dir_entry` writes is an entry.
pub put_entry-IsEntry :
    (m : Bytes) (base i ino : ℕ) (name : List ℕ)
    → IsText name
    → length name < 255
    → ino < u32_mod
    → IsEntry (put_entry m base i name ino) base i (record { text = name; number = ino })
unfolding load32
put_entry-IsEntry m base i ino name text short h = record {
  text = text;
  short = short;
  name = name_at m base i name ino text short;
  nul = nul_at m base i name ino text short;
  number = sym (put_entry-inode_no m base i name ino text short h);
}

read_bytes-text :
    (m : Bytes) (a : ℕ) (name : List ℕ)
    → ((k c : ℕ) → get_elem? name k ≡ some c → m (a + k) ≡ c)
    → read_bytes m a (length name) ≡ name
unfolding read_bytes
read_bytes-text m a [] at = refl
read_bytes-text m a (c ∷ name) at =
    let here : m a ≡ c = ap m (omega arith) ∙ at 0 c refl in
    let rest = read_bytes-text m (suc a) name (λ k d e. ap m (omega arith) ∙ at (suc k) d e) in
    rw (here, rest) refl

listed_at-IsEntry :
    (m : Bytes) (base i : ℕ) (e : Listed) → IsEntry m base i e → listed_at m base i ≡ e
unfolding load32
listed_at-IsEntry m base i e h =
    let long =
      strlen-text m text_limit (entry_at base i) e.text h.text h.name h.nul
        (omega (arith, h.short)) in
    let text : read_bytes m (entry_at base i) (strlen text_limit m (entry_at base i)) ≡ e.text =
      rw long (read_bytes-text m (entry_at base i) e.text h.name) in
    rw (text, sym h.number) refl

Holds-drop :
    (m : Bytes) (base i n : ℕ) (es : List Listed)
    → Holds m base i es
    → Holds m base (i + n) (drop n es)
Holds-drop m base i zero es h = subst (λ j. Holds m base j es) (omega arith) h
Holds-drop m base i (suc n) [] h = tt
Holds-drop m base i (suc n) (e ∷ es) h =
    subst (λ j. Holds m base j (drop n es)) (omega arith) (Holds-drop m base (suc i) n es h.1)

-- A context after the entries have been emitted into it in order, one position each; `emitted` has the
-- last one first.
abbrev pub with_entries : List Listed → DirContext → DirContext
with_entries es ctx = record { pos = ctx.pos + length es; emitted = reverse_aux es ctx.emitted }

-- The context has room for each of the entries in turn.
abbrev pub HasRoom : Emit → (emitted es : List Listed) → Type 0
HasRoom k emitted [] = Unit {0}
HasRoom k emitted (e ∷ es) = (k.dir_emit emitted e ≡ true) × HasRoom k (e ∷ emitted) es

-- The two ways in which a listing of entries ends: all of them have been emitted; or the first `j` have,
-- and there was no room for the next one.
abbrev pub Listing : Emit → List Listed → DirContext → Result (Unit {0}) × DirContext → Type 0
Listing k es ctx r =
    (HasRoom k ctx.emitted es × (r ≡ (ok tt, with_entries es ctx)))
    ⊎ ((j : ℕ) × (e : Listed) × (get_elem? es j ≡ some e)
        × HasRoom k ctx.emitted (take j es)
        × (k.dir_emit (with_entries (take j es) ctx).emitted e ≡ false)
        × (r ≡ (err einval, with_entries (take j es) ctx)))

with_entries-cons :
    (e : Listed) (es : List Listed) (ctx : DirContext)
    → with_entries es (record { pos = suc ctx.pos; emitted = e ∷ ctx.emitted })
      ≡ with_entries (e ∷ es) ctx
with_entries-cons e es ctx =
    ap (λ p. record { pos = p; emitted = reverse_aux es (e ∷ ctx.emitted) }) (omega arith)

iterate_loop_lem :
    (k : Emit) (m : Bytes) (base i : ℕ) (es : List Listed) (ctx : DirContext)
    → Holds m base i es
    → Listing k es ctx (iterate_loop k m base i (length es) ctx)
unfolding iterate_loop
iterate_loop_lem k m base i [] ctx h =
    inl (tt, ap (λ p. (ok tt, record { pos = p; emitted = ctx.emitted })) (omega arith))
iterate_loop_lem k m base i (e ∷ es) ctx h =
    rw (listed_at-IsEntry m base i e h.0) (elim (Bool-cases (k.dir_emit ctx.emitted e)) [
      | inl room ↦
          rw room
            (elim (iterate_loop_lem k m base (suc i) es
              (record { pos = suc ctx.pos; emitted = e ∷ ctx.emitted }) h.1) [
                | inl (all, ends) ↦
                    inl ((refl, all), ends ∙ ap (λ c. (ok tt, c)) (with_entries-cons e es ctx))
                | inr (j, f, at, first, full, stops) ↦ inr (
                  suc j,
                  f,
                  at,
                  (room, first),
                  full,
                  stops ∙ ap (λ c. (err einval, c)) (with_entries-cons e (take j es) ctx),
                )
              ])
      | inr full ↦ rw full (
          inr (
            zero,
            e,
            refl,
            tt,
            full,
            ap (λ p. (err einval, record { pos = p; emitted = ctx.emitted })) (omega arith),
          ))
    ])

-- In a directory whose entries are `entries`, with names without NUL and of less than 255 bytes, from
-- position `i + 2` on, where `i` is less than 2 ^ 31, `osfs_iterate` emits the entries from entry `i` to
-- the last one, with their names and inode numbers, in order, one position each; or it stops with
-- `-EINVAL` before the first entry for which the context has no room, at that entry's position.
pub osfs_iterate_lem :
    (k : Emit) (sb : SbInfo) (p i : ℕ) (entries : List Listed) (ctx : DirContext)
    → ctx.pos ≡ suc (suc i)
    → i < int_limit
    → dir_entry_count (sb.inode_table p) ≡ length entries
    → Holds sb.data_blocks (block_address (sb.inode_table p).i_block) 0 entries
    → (r : Result (Unit {0}) × DirContext) × (osfs_iterate k sb p ctx ≡ some r)
      × Listing k (drop i entries) ctx r
unfolding osfs_iterate iterate_entries
osfs_iterate_lem k sb p i entries ctx at small count h =
    let later : (suc (suc i) == 0) ≡ false = ground arith in
    let index : start_index (suc (suc i)) ≡ i = omega (arith, small) in
    let holds : ltb i int_limit ≡ true = ground (arith, small) in
    let rounds : dir_entry_count (sb.inode_table p) - i ≡ length (drop i entries) =
      omega (arith, count, length-drop i entries) in
    let base = block_address (sb.inode_table p).i_block in
    (
      iterate_loop k sb.data_blocks base i (length (drop i entries)) ctx,
      simp (osfs_iterate, at, iterate_entries, later, index, holds, rounds) refl,
      iterate_loop_lem k sb.data_blocks base i (drop i entries) ctx (
          subst (λ j. Holds sb.data_blocks base j (drop i entries)) (omega arith)
            (Holds-drop sb.data_blocks base 0 i entries h)),
    )
