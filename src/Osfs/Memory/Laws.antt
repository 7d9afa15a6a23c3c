-- ===== src/Osfs/Memory/Laws.antt =====
-- What a read finds after a write into the data blocks.
use ncku_operating_system.Base.{
  ℕ, zero, suc, ◌+◌, ◌≤◌, ◌<◌, ◌≡◌, refl, ◌⊎◌, List, [], ◌∷◌, some, arith, length, get_elem?,
  u32_mod, ap, ◌∙◌,
}
use ncku_operating_system.Osfs.Types.{Bytes}
use ncku_operating_system.Osfs.Memory.{write_bytes, read_bytes, zero_bytes, le32, load32, store32}

-- The `n` bytes at `a` and the `k` bytes at `b` have none in common.
abbrev pub Apart : ℕ → ℕ → ℕ → ℕ → Type 0
Apart a n b k = (a + n ≤ b) ⊎ (b + k ≤ a)

pub write_bytes-outside :
    (m : Bytes) (a : ℕ) (bs : List ℕ) (x : ℕ)
    → (x < a) ⊎ (a + length bs ≤ x)
    → write_bytes m a bs x ≡ m x
unfolding write_bytes
write_bytes-outside m a [] x h = refl
write_bytes-outside m a (b ∷ bs) x h = ground (arith, write_bytes-outside m (suc a) bs x)

pub write_bytes-inside :
    (m : Bytes) (a : ℕ) (bs : List ℕ) (i : ℕ) {b : ℕ}
    → get_elem? bs i ≡ some b
    → write_bytes m a bs (a + i) ≡ b
unfolding write_bytes
write_bytes-inside m a [] i h = absurd (cc)
write_bytes-inside m a (c ∷ bs) zero h = ground arith
write_bytes-inside m a (c ∷ bs) (suc i) {b} h =
    let rest : write_bytes m (suc a) bs (a + suc i) ≡ b =
      ap (write_bytes m (suc a) bs) (omega arith) ∙ write_bytes-inside m (suc a) bs i h in
    ground (arith, rest)

pub read_bytes-outside :
    (m : Bytes) (a n b : ℕ) (bs : List ℕ)
    → Apart a n b (length bs)
    → read_bytes (write_bytes m b bs) a n ≡ read_bytes m a n
unfolding read_bytes
read_bytes-outside m a zero b bs h = refl
read_bytes-outside m a (suc n) b bs h = rw (
  write_bytes-outside m b bs a (ground arith),
  read_bytes-outside m (suc a) n b bs (ground arith),
)

pub length-read_bytes : (m : Bytes) (a n : ℕ) → length (read_bytes m a n) ≡ n
unfolding read_bytes
length-read_bytes m a zero = refl
length-read_bytes m a (suc n) = ap suc (length-read_bytes m (suc a) n)

pub get_elem?-read_bytes :
    (m : Bytes) (a n i : ℕ) → i < n → get_elem? (read_bytes m a n) i ≡ some (m (a + i))
unfolding read_bytes
get_elem?-read_bytes m a zero i h = absurd (omega arith)
get_elem?-read_bytes m a (suc n) zero h = ap (λ x. some (m x)) (omega arith)
get_elem?-read_bytes m a (suc n) (suc i) h =
    get_elem?-read_bytes m (suc a) n i (omega arith) ∙ ap (λ x. some (m x)) (omega arith)

pub length-zero_bytes : (n : ℕ) → length (zero_bytes n) ≡ n
unfolding zero_bytes
length-zero_bytes zero = refl
length-zero_bytes (suc n) = ap suc (length-zero_bytes n)

pub load32-outside :
    (m : Bytes) (a b : ℕ) (bs : List ℕ)
    → Apart a 4 b (length bs)
    → load32 (write_bytes m b bs) a ≡ load32 m a
unfolding load32
load32-outside m a b bs h = rw (
  write_bytes-outside m b bs a (ground arith),
  write_bytes-outside m b bs (a + 1) (ground arith),
  write_bytes-outside m b bs (a + 2) (ground arith),
  write_bytes-outside m b bs (a + 3) (ground arith),
)

pub load32-store32_ne :
    (m : Bytes) (a b v : ℕ) → Apart a 4 b 4 → load32 (store32 m b v) a ≡ load32 m a
unfolding store32
load32-store32_ne m a b v h = load32-outside m a b (le32 v) h

pub load32-store32 : (m : Bytes) (a v : ℕ) → v < u32_mod → load32 (store32 m a v) a ≡ v
unfolding load32 store32 write_bytes
load32-store32 m a v h = ground arith

pub store32-outside : (m : Bytes) (a v x : ℕ) → (x < a) ⊎ (a + 4 ≤ x) → store32 m a v x ≡ m x
unfolding store32
store32-outside m a v x h = write_bytes-outside m a (le32 v) x h

pub load32-congr :
    (m m' : Bytes) (a : ℕ) → ((x : ℕ) → a ≤ x → x < a + 4 → m' x ≡ m x) → load32 m' a ≡ load32 m a
unfolding load32
load32-congr m m' a same = rw (
  same a (omega arith) (omega arith),
  same (a + 1) (omega arith) (omega arith),
  same (a + 2) (omega arith) (omega arith),
  same (a + 3) (omega arith) (omega arith),
)
