-- ===== src/Base/Counting.antt =====
-- Functions on the numbers as arrays: update at one index, and how many of the first `n` are set.
use Prim.Native.Nat.{ℕ, zero, suc, ◌+◌, ◌≤◌, ◌<◌}
use mathlib.Core.Path.{◌≡◌, refl}
use mathlib.Core.Bool.{Bool, true, false}
use native.Mathlib.Omega.{arith}
use ncku_operating_system.Base.Tests.{◌==◌, if◌then◌else◌}

-- `f` with the value `a` at index `i`.
abbrev pub update {ℓ} : {A : Type ℓ} → (ℕ → A) → ℕ → A → ℕ → A
update f i a j = if i == j then a else f j

-- 1 for a set bit.
abbrev pub bit_value : Bool → ℕ
bit_value true = 1
bit_value false = 0

-- The number of set bits below `n`.
unfoldable pub count_set : (ℕ → Bool) → ℕ → ℕ
count_set f zero = 0
count_set f (suc n) = count_set f n + bit_value (f n)

pub count_set-update_of_le :
    (f : ℕ → Bool) (n i : ℕ) (b : Bool) → n ≤ i → count_set (update f i b) n ≡ count_set f n
unfolding count_set
count_set-update_of_le f zero i b h = refl
count_set-update_of_le f (suc n) i b h = ground (arith, count_set-update_of_le f n i b)

pub count_set-update :
    (f : ℕ → Bool) (n i : ℕ) (b : Bool)
    → i < n
    → count_set (update f i b) n + bit_value (f i) ≡ count_set f n + bit_value b
unfolding count_set
count_set-update f zero i b h = absurd (omega arith)
count_set-update f (suc n) i b h =
    ground (arith, count_set-update f n i b, count_set-update_of_le f n i b)

pub count_set-le : (f : ℕ → Bool) (n : ℕ) → count_set f n ≤ n
unfolding count_set
count_set-le f zero = omega arith
count_set-le f (suc n) = ground (arith, count_set-le f n)

-- A clear bit below `n` leaves fewer than `n` set.
pub count_set-lt : (f : ℕ → Bool) (n i : ℕ) → i < n → f i ≡ false → count_set f n < n
unfolding count_set
count_set-lt f zero i h e = absurd (omega arith)
count_set-lt f (suc n) i h e = ground (arith, count_set-lt f n i, count_set-le f n)
