-- ===== src/Osfs/File/WriteLoop.antt =====
-- lab4/file.c: the loop of `osfs_extent_do_write` returns, and what it does to the bytes of a file.
use ncku_operating_system.Base.{
  ℕ, zero, suc, ◌+◌, ◌*◌, ◌/◌, ◌≤◌, ◌≡◌, ◌≢◌, refl, inl, inr, List, [], ◌∷◌, ◌++◌, arith, length,
  sym, subst, ◌==◌, true, false, Bool-cases, ==_iff, take, drop, take-add, drop-add, length-take,
  length-drop, take-append-drop,
}
use ncku_operating_system.Osfs.Types.{Errno, enospc, Result, ok, err, Inode, SbInfo, block_size}
use ncku_operating_system.Osfs.Extent.State.{IsFull, SameNodes, length-file_blocks-lt}
use ncku_operating_system.Osfs.File.{UserCopy, WriteResult, logical_block}
use ncku_operating_system.Osfs.File.Write.{Located, locate_block, write_loop}
use ncku_operating_system.Osfs.File.Content.{Written, Written-nil, Written-append}
use ncku_operating_system.Osfs.File.Locate.{
  LocatedAt, LocateOutcome, locate_block_lem, SameNodes-refl,
}
use ncku_operating_system.Osfs.File.Chunk
use ncku_operating_system.Osfs.File.Chunk.{
  FaultsAt, FaultsFrom, CopiesFrom, WriteOutcome, Writes, SameNodes-trans, Ready,
}

-- A chunk and then the rest is the whole.
module _ (user : UserCopy) (sb sb₁ : SbInfo) (t ino pos done chunk : ℕ) (xs : List ℕ)
    (fits : chunk ≤ length xs) (first : Written sb sb₁ t pos (take chunk xs))
    (nodes : SameNodes t ino sb sb₁) where
  chunk-append :
      (sb₂ : SbInfo) (ys : List ℕ)
      → Written sb₁ sb₂ t (pos + chunk) ys
      → Written sb sb₂ t pos (take chunk xs ++ ys)
  chunk-append sb₂ ys w =
      Written-append sb sb₁ sb₂ t pos (take chunk xs) ys first
        (subst (λ n. Written sb₁ sb₂ t (pos + n) ys) (omega (arith, length-take chunk xs)) w)

  WriteOutcome-append :
      (w : WriteResult) (r : Result ℕ)
      → WriteOutcome user sb₁ t ino (pos + chunk) (done + chunk) (drop chunk xs) w r
      → WriteOutcome user sb t ino pos done xs w r
  WriteOutcome-append w (ok n) (count, position, written, later) = (
    omega (arith, length-drop chunk xs),
    omega (arith, length-drop chunk xs),
    subst (Written sb w.sb t pos) (take-append-drop chunk xs)
        (chunk-append w.sb (drop chunk xs) written),
    SameNodes-trans sb sb₁ w.sb nodes later,
  )
  WriteOutcome-append w (err e) (inr (bad, f)) = inr (
    bad,
    record {
      part = chunk + f.part;
      short = omega (arith, length-drop chunk xs, f.short);
      before = f.before;
      written =
          subst (Written sb f.before t pos) (sym (take-add chunk f.part xs))
            (chunk-append f.before (take f.part (drop chunk xs)) f.written);
      fault =
          subst (FaultsAt user f.before t (pos + (chunk + f.part))) (sym (drop-add chunk f.part xs))
            (subst (λ q. FaultsAt user f.before t q (drop f.part (drop chunk xs))) (omega arith)
              f.fault);
    },
  )
  WriteOutcome-append w (err e) (inl (full, p)) = inl (
    full,
    record {
      part = chunk + p.part;
      short = omega (arith, length-drop chunk xs, p.short);
      full = p.full;
      written =
          subst (Written sb w.sb t pos) (sym (take-add chunk p.part xs))
            (chunk-append w.sb (take p.part (drop chunk xs)) p.written);
      nodes = SameNodes-trans sb sb₁ w.sb nodes p.nodes;
    },
  )

module _ (user : UserCopy) (copies : CopiesFrom user) (t ino : ℕ) where
  -- The loop with this many rounds returns, from any well-formed file.
  abbrev Returns : ℕ → Type 0
  Returns rounds =
      (sb : SbInfo) (inode : Inode) (pos done total : ℕ) (rest : List ℕ)
      → length rest ≤ rounds
      → Ready user copies t ino sb pos total
      → Writes user sb t ino pos done rest
          (write_loop user rounds ino (t * block_size) pos done total rest sb inode)

  -- One more round.
  module _ (rounds : ℕ) (next : Returns rounds) (sb : SbInfo) (inode : Inode) (pos done total x : ℕ)
      (rest : List ℕ) (h : length (x ∷ rest) ≤ suc rounds)
      (r : Ready user copies t ino sb pos total) where
    abbrev xs : List ℕ
    xs = x ∷ rest

    abbrev l : Located
    l = locate_block ino (t * block_size) (logical_block pos) total sb inode

    abbrev Goal : Type 0
    Goal =
        Writes user sb t ino pos done xs
          (write_loop user (suc rounds) ino (t * block_size) pos done total xs sb inode)

    located : LocateOutcome sb t ino pos l l.phys
    located =
        let same : logical_block pos ≡ pos / block_size =
          omega (arith, r.near, r.exact, length-file_blocks-lt sb t r.file) in
        subst
          (λ n.
            let k = locate_block ino (t * block_size) n total sb inode in
            LocateOutcome sb t ino pos k k.phys)
          (sym same) (locate_block_lem sb t ino pos total inode r.file r.counted r.exact r.near)

    no_room : {e : Errno} → l.phys ≡ err e → (e ≡ enospc) × (l.sb ≡ sb) × IsFull sb t → Goal
    unfolding write_loop
    no_room q (full, unchanged, no_block) =
        rw (q, write_loop)
          (
            _,
            refl,
            inl (
              full,
              record {
                part = 0;
                short = omega arith;
                full = rw unchanged no_block;
                written = rw unchanged (Written-nil sb t pos r.file);
                nodes = rw unchanged (SameNodes-refl t ino sb);
              },
            ),
          )

    module _ (block : ℕ) (q : l.phys ≡ ok block) (at : LocatedAt sb t ino pos l block) where
      abbrev chunk : ℕ
      chunk = Chunk.chunk user copies t ino sb pos total xs r l block at

      abbrev copied : ℕ
      copied = (Chunk.copy user copies t ino sb pos total xs r l block at).0

      abbrev after : SbInfo
      after = Chunk.after user copies t ino sb pos total xs r l block at

      go_on : (copied == 0) ≡ true → Goal
      unfolding write_loop
      go_on good =
          let zero_left : copied ≡ 0 = (==_iff copied 0).0 good in
          let (w, runs, out) =
            next after l.inode (pos + chunk) (done + chunk) l.total_blocks (drop chunk xs)
              (omega (arith, length-drop chunk xs))
              (Chunk.after-Ready user copies t ino sb pos total xs r l block at zero_left) in
          rw (q, write_loop, good)
            (
              w,
              runs,
              WriteOutcome-append user sb after t ino pos done chunk xs (omega arith)
                  (Chunk.after-Written user copies t ino sb pos total xs r l block at zero_left)
                  (Chunk.after-nodes user copies t ino sb pos total xs r l block at zero_left) w
                  w.result out,
            )

      not_zero : (copied == 0) ≡ false → copied ≢ 0
      not_zero fault zero_left = cc (fault, (==_iff copied 0).1 zero_left)

      -- The copy is the first one.
      first_fault : (copied == 0) ≡ false → FaultsFrom user sb t pos xs
      first_fault fault = record {
        part = 0;
        short = omega arith;
        before = l.sb;
        written = at.written;
        fault = subst (λ p. FaultsAt user l.sb t p xs) (omega arith) (block, at.at, not_zero fault);
      }

      one_chunk : Goal
      unfolding write_loop
      one_chunk = elim (Bool-cases (copied == 0)) [
        | inr fault ↦ rw (q, write_loop, fault) (_, refl, inr (refl, first_fault fault))
        | inl good ↦ go_on good
      ]

    one_round : Goal
    one_round = go l.phys refl located
      where
        go : (result : Result ℕ) → l.phys ≡ result → LocateOutcome sb t ino pos l result → Goal
        go (err e) q full = no_room q full
        go (ok block) q at = one_chunk block q at

  -- From a well-formed file the loop returns within as many rounds as there are bytes.
  pub write_loop_lem : (rounds : ℕ) → Returns rounds
  unfolding write_loop
  write_loop_lem rounds sb inode pos done total [] h r =
      (_, refl, (omega arith, omega arith, Written-nil sb t pos r.file, SameNodes-refl t ino sb))
  write_loop_lem zero sb inode pos done total (x ∷ rest) h r = absurd (omega arith)
  write_loop_lem (suc rounds) sb inode pos done total (x ∷ rest) h r =
      one_round rounds (write_loop_lem rounds) sb inode pos done total x rest h r
