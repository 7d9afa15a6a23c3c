-- ===== src/Osfs/File/ReadLoop.antt =====
-- lab4/file.c: the bytes of a file as a list, and the loop of `osfs_extent_do_read`, which returns them.
use Prim.Native.Nat.add
use mathlib.Core.List.{append_assoc, append-nil}
use ncku_operating_system.Base.{
  ℕ, zero, suc, ◌+◌, ◌-◌, ◌*◌, ◌/◌, ◌%◌, ◌≤◌, ◌≡◌, ◌≢◌, refl, inl, inr, List, [], ◌∷◌, ◌++◌, Option,
  none, some, arith, length, ap, ◌∙◌, ◌⊎◌, ◌==◌, true, false, Bool-cases, ==_iff, get_elem?,
  get_elem?-of_lt, All-get, min,
}
use ncku_operating_system.Osfs.Types.{efault, Result, ok, err, SbInfo, block_size}
use ncku_operating_system.Osfs.Memory.{read_bytes}
use ncku_operating_system.Osfs.Extent.{Hit, block_address, osfs_extent_lookup_block}
use ncku_operating_system.Osfs.Extent.Blocks.{phys, found_or_enoent}
use ncku_operating_system.Osfs.Extent.State.{IsOwned, IsFile, file_blocks, length-file_blocks-lt}
use ncku_operating_system.Osfs.File.{UserCopy, logical_block, block_offset}
use ncku_operating_system.Osfs.File.Read.{read_loop}
use ncku_operating_system.Osfs.File.Content.{file_byte, file_byte-at, Written}
use ncku_operating_system.Osfs.File.Locate.{lookup-IsFile, found-some, found-none}

abbrev pub byte_or_zero : Option ℕ → ℕ
byte_or_zero none = 0
byte_or_zero (some c) = c

-- The `n` bytes of a file at position `pos`.
unfoldable pub file_bytes : SbInfo → (t pos n : ℕ) → List ℕ
file_bytes sb t pos zero = []
file_bytes sb t pos (suc n) = byte_or_zero (file_byte sb t pos) ∷ file_bytes sb t (suc pos) n

pub length-file_bytes : (sb : SbInfo) (t pos n : ℕ) → length (file_bytes sb t pos n) ≡ n
unfolding file_bytes
length-file_bytes sb t pos zero = refl
length-file_bytes sb t pos (suc n) = ap suc (length-file_bytes sb t (suc pos) n)

file_bytes-add :
    (sb : SbInfo) (t pos n k : ℕ)
    → file_bytes sb t pos n ++ file_bytes sb t (pos + n) k ≡ file_bytes sb t pos (n + k)
unfolding file_bytes
file_bytes-add sb t pos zero k =
    ap (λ p. file_bytes sb t p k) (omega arith) ∙ ap (file_bytes sb t pos) (omega arith)
file_bytes-add sb t pos (suc n) k = rw add.suc (
    ap (λ bs. byte_or_zero (file_byte sb t pos) ∷ bs)
      (ap (λ p. file_bytes sb t (suc pos) n ++ file_bytes sb t p k) (omega arith)
        ∙ file_bytes-add sb t (suc pos) n k))

-- After a write, the bytes at its position are those of the buffer.
pub file_bytes-Written :
    (sb sb' : SbInfo) (t pos : ℕ) (buf : List ℕ)
    → Written sb sb' t pos buf
    → file_bytes sb' t pos (length buf) ≡ buf
unfolding file_bytes
file_bytes-Written sb sb' t pos buf w = go pos buf (λ k c e. w.inside k c e)
  where
    go :
        (p : ℕ) (bs : List ℕ)
        → ((k c : ℕ) → get_elem? bs k ≡ some c → file_byte sb' t (p + k) ≡ some c)
        → file_bytes sb' t p (length bs) ≡ bs
    go p [] h = refl
    go p (c ∷ bs) h =
        let here : file_byte sb' t p ≡ some c = ap (file_byte sb' t) (omega arith) ∙ h 0 c refl in
        rw (here, go (suc p) bs (λ k d e. ap (file_byte sb' t) (omega arith) ∙ h (suc k) d e))

-- The bytes that one round reads are those of the file.
read_bytes-file_bytes :
    (sb : SbInfo) (t pos block n : ℕ)
    → get_elem? (file_blocks sb t) (pos / block_size) ≡ some block
    → pos % block_size + n ≤ block_size
    → read_bytes sb.data_blocks (block * block_size + pos % block_size) n ≡ file_bytes sb t pos n
unfolding read_bytes file_bytes
read_bytes-file_bytes sb t pos block zero at fits = refl
read_bytes-file_bytes sb t pos block (suc zero) at fits = rw (file_byte-at sb t pos at)
read_bytes-file_bytes sb t pos block (suc (suc n)) at fits =
    let same : suc pos / block_size ≡ pos / block_size = omega arith in
    let next : suc (block * block_size + pos % block_size)
        ≡ block * block_size + suc pos % block_size =
      omega arith in
    let rest = read_bytes-file_bytes sb t (suc pos) block (suc n) (rw same at) (omega arith) in
    rw (file_byte-at sb t pos at) (
      ap (λ bs. sb.data_blocks (block * block_size + pos % block_size) ∷ bs)
        (ap (λ a. read_bytes sb.data_blocks a (suc n)) next ∙ rest))

-- A copy that fails.
abbrev pub FaultsTo : UserCopy → Type 0
FaultsTo user = (done : ℕ) × (bs : List ℕ) × (user.copy_to_user done bs ≢ 0)

-- What the loop returns: the bytes of the file behind those it had, or `-EFAULT`.
abbrev pub LoopReads :
    UserCopy → SbInfo → (t pos remaining : ℕ) → List ℕ → Option (Result (List ℕ) × ℕ) → Type 0
LoopReads user sb t pos remaining out o =
    (o ≡ some (ok (out ++ file_bytes sb t pos remaining), pos + remaining))
    ⊎ ((p : ℕ) × (o ≡ some (err efault, p)) × FaultsTo user)

module _ (user : UserCopy) (sb : SbInfo) (t : ℕ) (f : IsFile sb t) where
  -- The loop with this many rounds returns, at any position of the file's blocks.
  abbrev pub Returns : ℕ → Type 0
  Returns rounds =
      (pos remaining : ℕ) (out : List ℕ)
      → remaining ≤ rounds
      → pos + remaining ≤ length (file_blocks sb t) * block_size
      → LoopReads user sb t pos remaining out
          (read_loop user rounds sb.data_blocks (t * block_size) pos remaining out)

  module _ (rounds : ℕ) (next : Returns rounds) (pos remaining : ℕ) (out : List ℕ)
      (h : suc remaining ≤ suc rounds)
      (inside : pos + suc remaining ≤ length (file_blocks sb t) * block_size) where
    abbrev Goal : Type 0
    Goal =
        LoopReads user sb t pos (suc remaining) out
          (read_loop user (suc rounds) sb.data_blocks (t * block_size) pos (suc remaining) out)

    abbrev chunk : ℕ
    chunk = min (suc remaining) (block_size - block_offset pos)

    logical : logical_block pos ≡ pos / block_size
    logical = omega (arith, length-file_blocks-lt sb t f)

    -- The chunk of this round, as the loop reads it.
    bytes-at :
        (block : ℕ)
        → get_elem? (file_blocks sb t) (pos / block_size) ≡ some block
        → read_bytes sb.data_blocks (block_address block + block_offset pos) chunk
          ≡ file_bytes sb t pos chunk
    bytes-at block at =
        let own = All-get (IsOwned sb t) (file_blocks sb t) (pos / block_size) f.owned at in
        let address : block_address block ≡ block * block_size = omega (arith, f.space, own.0) in
        ap (λ a. read_bytes sb.data_blocks (a + block_offset pos) chunk) address
        ∙ read_bytes-file_bytes sb t pos block chunk at (omega arith)

    -- The round ends in `-EFAULT` or goes on with the rest.
    module _ (hit : Hit)
        (q : osfs_extent_lookup_block sb.data_blocks (some (t * block_size)) (logical_block pos)
          ≡ ok hit) where
      abbrev bytes : List ℕ
      bytes = read_bytes sb.data_blocks (block_address hit.phys_block + block_offset pos) chunk

      faulted :
          (user.copy_to_user (length out) bytes == 0) ≡ false
          → read_loop user (suc rounds) sb.data_blocks (t * block_size) pos (suc remaining) out
            ≡ some (err efault, pos)
      unfolding read_loop
      faulted fault = rw (q, read_loop, fault) refl

      continued :
          (user.copy_to_user (length out) bytes == 0) ≡ true
          → read_loop user (suc rounds) sb.data_blocks (t * block_size) pos (suc remaining) out
            ≡ read_loop user rounds sb.data_blocks
                (t * block_size)
                (pos + chunk)
                (suc remaining - chunk)
                (out ++ bytes)
      unfolding read_loop
      continued good = rw (q, read_loop, good) refl

      whole :
          get_elem? (file_blocks sb t) (pos / block_size) ≡ some hit.phys_block
          → (out ++ bytes) ++ file_bytes sb t (pos + chunk) (suc remaining - chunk)
            ≡ out ++ file_bytes sb t pos (suc remaining)
      whole at =
          append_assoc out bytes (file_bytes sb t (pos + chunk) (suc remaining - chunk))
          ∙ ap (λ bs. out ++ bs)
              (ap (λ b. b ++ file_bytes sb t (pos + chunk) (suc remaining - chunk))
                  (bytes-at hit.phys_block at)
                ∙ file_bytes-add sb t pos chunk (suc remaining - chunk)
                ∙ ap (file_bytes sb t pos) (omega arith))

      found_block : get_elem? (file_blocks sb t) (pos / block_size) ≡ some hit.phys_block → Goal
      found_block at = elim (Bool-cases (user.copy_to_user (length out) bytes == 0)) [
        | inr fault ↦ inr (
          pos,
          faulted fault,
          (length out, bytes, λ none_left. cc (fault, (==_iff _ 0).1 none_left)),
        )
        | inl good ↦
            elim (next (pos + chunk) (suc remaining - chunk) (out ++ bytes) (omega arith)
              (omega arith)) [
                | inr (p, e, faults) ↦ inr (p, continued good ∙ e, faults)
                | inl e ↦ inl (continued good ∙ e ∙ ap some (λ i. (ok (whole at i), total i)))
              ]
      ]
        where
          total : pos + chunk + (suc remaining - chunk) ≡ pos + suc remaining
          total = omega arith

    one_round : Goal
    one_round =
        go _ refl
          (lookup-IsFile sb t (pos / block_size) f (omega (arith, length-file_blocks-lt sb t f)))
      where
        go :
            (r : Result Hit)
            → osfs_extent_lookup_block sb.data_blocks (some (t * block_size)) (pos / block_size) ≡ r
            → phys
                (osfs_extent_lookup_block sb.data_blocks (some (t * block_size)) (pos / block_size))
              ≡ found_or_enoent (get_elem? (file_blocks sb t) (pos / block_size))
            → Goal
        go (ok hit) q s = found_block hit (rw logical q) (found-some _ _ s q)
        go (err x) q s =
            let (b, e) = get_elem?-of_lt (file_blocks sb t) (pos / block_size) (omega arith) in
            absurd (cc (found-none _ _ s q, e))

  pub read_loop_lem : (rounds : ℕ) → Returns rounds
  unfolding read_loop file_bytes
  read_loop_lem rounds pos zero out h inside =
      inl (rw append-nil (ap (λ p. some (ok out, p)) (omega arith)))
  read_loop_lem zero pos (suc remaining) out h inside = absurd (omega arith)
  read_loop_lem (suc rounds) pos (suc remaining) out h inside =
      one_round rounds (read_loop_lem rounds) pos remaining out h inside
