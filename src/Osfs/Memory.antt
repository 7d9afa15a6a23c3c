-- ===== src/Osfs/Memory.antt =====
-- The data blocks as bytes: `memcpy` and `memset` into them, and the `uint32_t` members of the
-- structures that lie in them (lab4/file.c and lab4/dir.c), least significant byte first.
pub mod Laws
use ncku_operating_system.Base.{ℕ, zero, suc, ◌+◌, ◌*◌, ◌/◌, ◌%◌, List, [], ◌∷◌, update}
use ncku_operating_system.Osfs.Types.{Bytes}

-- `memcpy(data_blocks + a, bs, length bs)`.
unfoldable pub write_bytes : Bytes → ℕ → List ℕ → Bytes
write_bytes m a [] = m
write_bytes m a (b ∷ bs) = update (write_bytes m (suc a) bs) a b

-- The `n` bytes at `a`.
unfoldable pub read_bytes : Bytes → ℕ → ℕ → List ℕ
read_bytes m a zero = []
read_bytes m a (suc n) = m a ∷ read_bytes m (suc a) n

-- `n` zero bytes, for `memset(..., 0, n)`.
unfoldable pub zero_bytes : ℕ → List ℕ
zero_bytes zero = []
zero_bytes (suc n) = 0 ∷ zero_bytes n

abbrev le32 : ℕ → List ℕ
le32 v = (v % 256) ∷ (v / 256 % 256) ∷ (v / 65536 % 256) ∷ (v / 16777216 % 256) ∷ []

-- A load and a store of a `uint32_t`.
unfoldable pub load32 : Bytes → ℕ → ℕ
load32 m a = m a + 256 * m (a + 1) + 65536 * m (a + 2) + 16777216 * m (a + 3)

unfoldable pub store32 : Bytes → ℕ → ℕ → Bytes
unfolding write_bytes
store32 m a v = write_bytes m a (le32 v)
