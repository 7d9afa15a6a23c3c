-- ===== src/Proc/Laws.antt =====
-- lab3/3/3_2/My_Kernel.c: Mywrite and Myread stay inside the buffer, and what has been written is read.
use ncku_operating_system.Base.{
  ℕ, zero, suc, ◌+◌, ◌-◌, ◌≤◌, ◌<◌, ◌≡◌, refl, true, false, Bool-cases, inl, inr, List, [], ◌∷◌,
  ◌++◌, some, arith, leb, ◌==◌, min, take, drop, length, length-take, length-append, get_elem?, All,
  ap, sym, ◌∙◌,
}
use mathlib.Core.List.{append_assoc}
use ncku_operating_system.Proc.{
  bufsize, strnlen, overwrite, scnprintf_bytes, UserCopy, write_at, my_write,
}
use ncku_operating_system.Proc.Buffer.{
  take-append_exact, length-overwrite, get_elem?-overwrite_ge, NonZero, strnlen-string, strnlen-lt,
}

-- What the documentation of `copy_from_user` says: as many bytes arrive as are asked for, and they are the
-- user's if none is missing.
pub record IsCopy (copy : UserCopy) : Type 0 where
  pub arrived_length : (bytes : List ℕ) → length (copy.arrived bytes) ≡ length bytes
  pub arrived_bytes :
      (bytes : List ℕ) → (copy.copy_from_user bytes == 0) ≡ true → copy.arrived bytes ≡ bytes

-- The buffer has its size, and its last byte is a NUL.
abbrev pub IsBuffer : List ℕ → Type 0
IsBuffer buf = (length buf ≡ bufsize) × (get_elem? buf (bufsize - 1) ≡ some 0)

-- Bytes in front of the last one, which stays.
overwrite-IsBuffer :
    (buf : List ℕ) (a : ℕ) (bytes : List ℕ)
    → a + length bytes < bufsize
    → IsBuffer buf
    → IsBuffer (overwrite buf a bytes)
overwrite-IsBuffer buf a bytes h b = (
  length-overwrite buf a bytes (omega (arith, h, b.0)) ∙ b.0,
  get_elem?-overwrite_ge buf a bytes (bufsize - 1) (omega (arith, h, b.0)) (omega (arith, h)) ∙ b.1,
)

pub scnprintf_bytes-pos :
    (size : ℕ) (text : List ℕ)
    → 1 ≤ size
    → scnprintf_bytes size text ≡ take (size - 1) text ++ 0 ∷ []
unfolding scnprintf_bytes
scnprintf_bytes-pos zero text h = absurd (omega (arith, h))
scnprintf_bytes-pos (suc size) text h =
    let same : size ≡ suc size - 1 = omega arith in ap (λ n. take n text ++ 0 ∷ []) same

get_elem?-last : (xs ys : List ℕ) (c : ℕ) → get_elem? (xs ++ c ∷ ys) (length xs) ≡ some c
get_elem?-last [] ys c = refl
get_elem?-last (x ∷ xs) ys c = get_elem?-last xs ys c

-- A text and its NUL, written from `a` on.
module _ (buf : List ℕ) (a : ℕ) (text : List ℕ) where
  pub overwrite-text :
      overwrite buf a (text ++ 0 ∷ [])
      ≡ (take a buf ++ text) ++ 0 ∷ drop (a + length (text ++ 0 ∷ [])) buf
  unfolding overwrite
  overwrite-text =
      ap (λ xs. take a buf ++ xs) (append_assoc text (0 ∷ []) _)
      ∙ sym (append_assoc (take a buf) text _)

  text-IsBuffer :
      a + length text < bufsize → IsBuffer buf → IsBuffer (overwrite buf a (text ++ 0 ∷ []))
  text-IsBuffer h b =
      let size = length-append text (0 ∷ []) in
      let front : length (take a buf ++ text) ≡ a + length text =
        omega (arith, h, b.0, length-append (take a buf) text, length-take a buf) in
      (
        length-overwrite buf a (text ++ 0 ∷ []) (omega (arith, h, b.0, size)) ∙ b.0,
        elim (Bool-cases (a + length text == bufsize - 1)) [
          | inl e ↦
              let last : bufsize - 1 ≡ length (take a buf ++ text) = ground (arith, front, e) in
              ap (λ xs. get_elem? xs (bufsize - 1)) overwrite-text
              ∙ ap (get_elem? ((take a buf ++ text) ++ 0 ∷ drop (a + length (text ++ 0 ∷ [])) buf))
                  last
              ∙ get_elem?-last (take a buf ++ text) _ 0
          | inr e ↦
              let inside : a + length (text ++ 0 ∷ []) ≤ bufsize - 1 = ground (arith, size, e, h) in
              get_elem?-overwrite_ge buf a (text ++ 0 ∷ []) (bufsize - 1) (omega (arith, h, b.0))
                inside
              ∙ b.1
        ],
      )

-- The string in a buffer.
abbrev pub string : List ℕ → List ℕ
string buf = take (strnlen buf bufsize) buf

pub string-text :
    (text rest : List ℕ)
    → All NonZero text
    → length text < bufsize
    → string (text ++ 0 ∷ rest) ≡ text
string-text text rest t h =
    ap (λ n. take n (text ++ 0 ∷ rest)) (strnlen-string text rest bufsize t h)
    ∙ take-append_exact text (0 ∷ rest)

module _ (copy : UserCopy) (is_copy : IsCopy copy) where
  pub copied_length :
      (ubuf : List ℕ) (n : ℕ) → n ≤ length ubuf → length (copy.arrived (take n ubuf)) ≡ n
  copied_length ubuf n h =
      omega (arith, h, is_copy.arrived_length (take n ubuf), length-take n ubuf)

  write_at-IsBuffer :
      (info ubuf buf : List ℕ) (buffer_len n : ℕ)
      → n ≤ length ubuf
      → buffer_len + n < bufsize
      → IsBuffer buf
      → IsBuffer (write_at copy info ubuf buf buffer_len n).buf
  unfolding write_at
  write_at-IsBuffer info ubuf buf buffer_len n h l b =
      let size = copied_length ubuf n h in
      let copied =
        overwrite-IsBuffer buf buffer_len (copy.arrived (take n ubuf)) (omega (arith, l, size)) b in
      elim (Bool-cases (n == 0)) [
        | inl e ↦ rw e b
        | inr e ↦ elim (Bool-cases (copy.copy_from_user (take n ubuf) == 0)) [
          | inl f ↦
              let end = buffer_len + n in
              let ended =
                text-IsBuffer (overwrite buf buffer_len (copy.arrived (take n ubuf))) end []
                  (omega (arith, l)) copied in
              let room : 1 ≤ bufsize - end = omega (arith, l) in
              let short : end + length (take (bufsize - end - 1) info) < bufsize =
                omega (arith, l, length-take (bufsize - end - 1) info) in
              rw (e, f, scnprintf_bytes-pos (bufsize - end) info room)
                (text-IsBuffer _ end (take (bufsize - end - 1) info) short ended)
          | inr f ↦ rw (e, f) copied
        ]
      ]

  -- Whatever Mywrite is given, also when a copy fails, it writes only inside the buffer, and the last byte
  -- of the buffer stays a NUL; if `copy_from_user` does what its documentation says.
  pub my_write-IsBuffer :
      (info ubuf buf : List ℕ) → IsBuffer buf → IsBuffer (my_write copy info ubuf buf).buf
  unfolding my_write
  my_write-IsBuffer info ubuf buf b =
      let len = strnlen buf bufsize in
      let inside : len ≤ bufsize - 1 = strnlen-lt buf bufsize (bufsize - 1) (omega arith) b.1 in
      let room : leb bufsize len ≡ false = ground (arith, inside) in
      rw room (
        write_at-IsBuffer info ubuf buf len (min (length ubuf) (bufsize - len - 1)) (omega arith)
          (omega (arith, inside)) b)
