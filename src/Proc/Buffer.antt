-- ===== src/Proc/Buffer.antt =====
-- lab3/3/3_2/My_Kernel.c: the buffer as a list of bytes, and the string in it.
use ncku_operating_system.Base.{
  ℕ, zero, suc, ◌+◌, ◌-◌, ◌≤◌, ◌<◌, ◌≡◌, refl, false, Bool-cases, inl, inr, List, [], ◌∷◌, ◌++◌,
  some, arith, ◌==◌, take, drop, length, length-take, length-drop, length-append, get_elem?,
  get_elem?-append_ge, All, ap, sym, ◌∙◌,
}
use mathlib.Core.List.{append_assoc}
use ncku_operating_system.Proc.{strnlen, overwrite}

pub take-append_exact : (xs ys : List ℕ) → take (length xs) (xs ++ ys) ≡ xs
take-append_exact [] ys = refl
take-append_exact (x ∷ xs) ys = ap (λ zs. x ∷ zs) (take-append_exact xs ys)

pub length-overwrite :
    (buf : List ℕ) (a : ℕ) (bytes : List ℕ)
    → a + length bytes ≤ length buf
    → length (overwrite buf a bytes) ≡ length buf
unfolding overwrite
length-overwrite buf a bytes h = omega (
  arith,
  h,
  length-append (take a buf) (bytes ++ drop (a + length bytes) buf),
  length-append bytes (drop (a + length bytes) buf),
  length-take a buf,
  length-drop (a + length bytes) buf,
)

pub take-overwrite :
    (buf : List ℕ) (a : ℕ) (bytes : List ℕ)
    → a ≤ length buf
    → take (a + length bytes) (overwrite buf a bytes) ≡ take a buf ++ bytes
unfolding overwrite
take-overwrite buf a bytes h =
    let front = take a buf ++ bytes in
    let size : a + length bytes ≡ length front =
      omega (arith, h, length-append (take a buf) bytes, length-take a buf) in
    ap (λ n. take n (overwrite buf a bytes)) size
    ∙ ap (take (length front)) (sym (append_assoc (take a buf) bytes (drop (a + length bytes) buf)))
    ∙ take-append_exact front (drop (a + length bytes) buf)

get_elem?-drop : (n i : ℕ) (buf : List ℕ) → get_elem? (drop n buf) i ≡ get_elem? buf (n + i)
get_elem?-drop zero i buf = ap (get_elem? buf) (omega arith)
get_elem?-drop (suc n) i [] = refl
get_elem?-drop (suc n) i (c ∷ buf) =
    let next : suc (n + i) ≡ suc n + i = omega arith in
    get_elem?-drop n i buf ∙ ap (get_elem? (c ∷ buf)) next

pub get_elem?-overwrite_ge :
    (buf : List ℕ) (a : ℕ) (bytes : List ℕ) (i : ℕ)
    → a ≤ length buf
    → a + length bytes ≤ i
    → get_elem? (overwrite buf a bytes) i ≡ get_elem? buf i
unfolding overwrite
get_elem?-overwrite_ge buf a bytes i h k =
    let rest = drop (a + length bytes) buf in
    let size : length (take a buf) ≡ a = omega (arith, h, length-take a buf) in
    let place : a + length bytes + (i - length (take a buf) - length bytes) ≡ i =
      omega (arith, k, size) in
    get_elem?-append_ge (take a buf) (bytes ++ rest) i (omega (arith, k, size))
    ∙ get_elem?-append_ge bytes rest (i - length (take a buf)) (omega (arith, k, size))
    ∙ get_elem?-drop (a + length bytes) (i - length (take a buf) - length bytes) buf
    ∙ ap (get_elem? buf) place

abbrev pub NonZero : ℕ → Type 0
NonZero c = (c == 0) ≡ false

pub strnlen-le : (buf : List ℕ) (n : ℕ) → strnlen buf n ≤ n
unfolding strnlen
strnlen-le [] n = omega arith
strnlen-le (c ∷ buf) zero = omega arith
strnlen-le (c ∷ buf) (suc n) = ground (arith, strnlen-le buf n)

pub strnlen-le-length : (buf : List ℕ) (n : ℕ) → strnlen buf n ≤ length buf
unfolding strnlen
strnlen-le-length [] n = omega arith
strnlen-le-length (c ∷ buf) zero = omega arith
strnlen-le-length (c ∷ buf) (suc n) = ground (arith, strnlen-le-length buf n)

-- A string ends at its first NUL.
pub strnlen-string :
    (text rest : List ℕ) (n : ℕ)
    → All NonZero text
    → length text < n
    → strnlen (text ++ 0 ∷ rest) n ≡ length text
unfolding strnlen
strnlen-string [] rest zero t h = absurd (omega (arith, h))
strnlen-string [] rest (suc n) t h = refl
strnlen-string (c ∷ text) rest zero t h = absurd (omega (arith, h))
strnlen-string (c ∷ text) rest (suc n) t h =
    rw t.0 (ap suc (strnlen-string text rest n t.1 (omega (arith, h))))

-- A NUL in the buffer ends the string.
pub strnlen-lt : (buf : List ℕ) (n i : ℕ) → i < n → get_elem? buf i ≡ some 0 → strnlen buf n ≤ i
unfolding strnlen
strnlen-lt [] n i h e = omega arith
strnlen-lt (c ∷ buf) zero i h e = absurd (omega (arith, h))
strnlen-lt (c ∷ buf) (suc n) zero h e = let end : c ≡ 0 = cc in rw end (omega arith)
strnlen-lt (c ∷ buf) (suc n) (suc i) h e = ground (arith, strnlen-lt buf n i (omega (arith, h)) e)

-- The bytes in front of a NUL are not NULs.
pub take-strnlen-NonZero : (buf : List ℕ) (n : ℕ) → All NonZero (take (strnlen buf n) buf)
unfolding strnlen
take-strnlen-NonZero [] n = tt
take-strnlen-NonZero (c ∷ buf) zero = tt
take-strnlen-NonZero (c ∷ buf) (suc n) = elim (Bool-cases (c == 0)) [
  | inl e ↦ rw e tt
  | inr e ↦ rw e (e, take-strnlen-NonZero buf n)
]
