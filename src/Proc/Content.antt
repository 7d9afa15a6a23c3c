-- ===== src/Proc/Content.antt =====
-- lab3/3/3_2/My_Kernel.c: the string in the buffer behind Mywrite and Myread.
use ncku_operating_system.Base.{
  ℕ, zero, suc, ◌+◌, ◌-◌, ◌≤◌, ◌<◌, ◌≡◌, refl, true, false, List, [], ◌∷◌, ◌++◌, arith, ltb, leb,
  ◌==◌, min, take, drop, length, length-take, length-append, All, All-append, ap, sym, ◌∙◌, subst,
}
use ncku_operating_system.Osfs.Types.{ok}
use ncku_operating_system.Proc.{
  bufsize, strnlen, overwrite, scnprintf_bytes, zeros, UserCopy, write_at, my_write, my_read,
}
use ncku_operating_system.Proc.Buffer.{
  take-append_exact, length-overwrite, take-overwrite, NonZero, strnlen-le, strnlen-lt,
  take-strnlen-NonZero,
}
use ncku_operating_system.Proc.Laws.{
  IsCopy, IsBuffer, string, string-text, overwrite-text, scnprintf_bytes-pos,
}

All-take : (n : ℕ) (xs : List ℕ) → All NonZero xs → All NonZero (take n xs)
All-take zero xs h = tt
All-take (suc n) [] h = tt
All-take (suc n) (x ∷ xs) h = (h.0, All-take n xs h.1)

take-overwrite_before :
    (buf : List ℕ) (a : ℕ) (bytes : List ℕ)
    → a ≤ length buf
    → take a (overwrite buf a bytes) ≡ take a buf
unfolding overwrite
take-overwrite_before buf a bytes h =
    let rest = bytes ++ drop (a + length bytes) buf in
    let size : a ≡ length (take a buf) = omega (arith, h, length-take a buf) in
    ap (λ n. take n (take a buf ++ rest)) size ∙ take-append_exact (take a buf) rest

-- A text behind another text.
string-overwrite :
    (buf : List ℕ) (a : ℕ) (text : List ℕ)
    → All NonZero (take a buf)
    → All NonZero text
    → a ≤ length buf
    → a + length text < bufsize
    → string (overwrite buf a (text ++ 0 ∷ [])) ≡ take a buf ++ text
string-overwrite buf a text h k l m =
    let front = take a buf ++ text in
    let short : length front < bufsize =
      omega (arith, l, m, length-append (take a buf) text, length-take a buf) in
    ap string (overwrite-text buf a text)
    ∙ string-text front _ (All-append NonZero (take a buf) text h k) short

-- A text, a NUL, and another text in the place of the NUL.
string-two :
    (buf : List ℕ) (len n : ℕ) (text more : List ℕ)
    → length buf ≡ bufsize
    → length text ≡ n
    → len + n + length more < bufsize
    → All NonZero (take len buf)
    → All NonZero text
    → All NonZero more
    → string (
        overwrite
          (overwrite (overwrite buf len text) (len + n) (0 ∷ []))
          (len + n)
          (more ++ 0 ∷ []))
      ≡ (take len buf ++ text) ++ more
string-two buf len n text more size e h t u m =
    let copied = overwrite buf len text in
    let copied_size : length copied ≡ bufsize =
      length-overwrite buf len text (omega (arith, e, h, size)) ∙ size in
    let ended = overwrite copied (len + n) (0 ∷ []) in
    let ended_size : length ended ≡ bufsize =
      length-overwrite copied (len + n) (0 ∷ []) (omega (arith, h, copied_size)) ∙ copied_size in
    let front : take (len + n) ended ≡ take len buf ++ text =
      take-overwrite_before copied (len + n) (0 ∷ []) (omega (arith, h, copied_size))
      ∙ ap (λ k. take (len + k) copied) (sym e)
      ∙ take-overwrite buf len text (omega (arith, h, size)) in
    let plain : All NonZero (take (len + n) ended) =
      subst (All NonZero) (sym front) (All-append NonZero (take len buf) text t u) in
    string-overwrite ended (len + n) more plain m (omega (arith, h, ended_size)) h
    ∙ ap (λ xs. xs ++ more) front

-- The room behind the string of the buffer.
abbrev pub room : List ℕ → ℕ
room buf = bufsize - strnlen buf bufsize - 1

-- The string behind a write of `n` bytes.
abbrev pub extended : (info ubuf buf : List ℕ) → (n : ℕ) → List ℕ
extended info ubuf buf n = (string buf ++ take n ubuf) ++ take (room buf - n) info

module _ (copy : UserCopy) (is_copy : IsCopy copy) (info ubuf buf : List ℕ) where
  write_at-string :
      (n : ℕ)
      → IsBuffer buf
      → All NonZero info
      → All NonZero ubuf
      → n ≤ length ubuf
      → strnlen buf bufsize + n < bufsize
      → (n == 0) ≡ false
      → (copy.copy_from_user (take n ubuf) == 0) ≡ true
      → ((write_at copy info ubuf buf (strnlen buf bufsize) n).result ≡ ok n)
        × (string (write_at copy info ubuf buf (strnlen buf bufsize) n).buf
            ≡ extended info ubuf buf n)
  unfolding write_at
  write_at-string n b i u h l more copies =
      let len = strnlen buf bufsize in
      let size : 1 ≤ bufsize - (len + n) = omega (arith, l) in
      let same : bufsize - (len + n) - 1 ≡ room buf - n = omega (arith, l) in
      let rest = take (room buf - n) info in
      let info_bytes : scnprintf_bytes (bufsize - (len + n)) info ≡ rest ++ 0 ∷ [] =
        scnprintf_bytes-pos _ info size ∙ ap (λ k. take k info ++ 0 ∷ []) same in
      let fits : len + n + length rest < bufsize =
        omega (arith, l, length-take (room buf - n) info) in
      let whole : length (take n ubuf) ≡ n = omega (arith, h, length-take n ubuf) in
      rw (more, copies, info_bytes, is_copy.arrived_bytes (take n ubuf) copies)
        (
          refl,
          string-two buf len n (take n ubuf) rest b.0 whole fits (take-strnlen-NonZero buf bufsize)
              (All-take n ubuf u) (All-take (room buf - n) info i),
        )

  -- A write that has room and is copied: it returns the number of bytes written, as many as there is
  -- room for, and the string of the buffer is extended by them and by what there is room for of `info`; for
  -- bytes that are not NULs.
  pub my_write_lem :
      IsBuffer buf
      → All NonZero info
      → All NonZero ubuf
      → (min (length ubuf) (room buf) == 0) ≡ false
      → (copy.copy_from_user (take (min (length ubuf) (room buf)) ubuf) == 0) ≡ true
      → ((my_write copy info ubuf buf).result ≡ ok (min (length ubuf) (room buf)))
        × (string (my_write copy info ubuf buf).buf
            ≡ extended info ubuf buf (min (length ubuf) (room buf)))
  unfolding my_write
  my_write_lem b i u more copies =
      let len = strnlen buf bufsize in
      let inside : len ≤ bufsize - 1 = strnlen-lt buf bufsize (bufsize - 1) (omega arith) b.1 in
      let enough : leb bufsize len ≡ false = ground (arith, inside) in
      rw enough (
        write_at-string (min (length ubuf) (room buf)) b i u (omega arith) (omega (arith, inside))
          more copies)

string-zeros : string (zeros bufsize) ≡ []
unfolding zeros strnlen
string-zeros = refl

pub my_read_lem :
    (copy : UserCopy) (buffer_len : ℕ) (buf : List ℕ)
    → bufsize ≤ buffer_len
    → (copy.copy_to_user (string buf) == 0) ≡ true
    → my_read copy buffer_len 0 buf
      ≡ record { result = ok (string buf); offset = strnlen buf bufsize; buf = zeros bufsize }
unfolding my_read
my_read_lem copy buffer_len buf h copies =
    let enough : ltb buffer_len (strnlen buf bufsize) ≡ false =
      ground (arith, h, strnlen-le buf bufsize) in
    rw (enough, copies) refl

-- The buffer ends in a NUL, the bytes and `info` have no NULs, there is room for one byte at least, and the
-- copy of the write does not fault: then a read from offset 0 into at least 1024 bytes, whose copy does
-- not fault, gives the string that was in the buffer, then the bytes and then `info`, as far as there is
-- room, and leaves the string of the buffer empty.
pub my_read-my_write :
    (copy : UserCopy) (info ubuf buf : List ℕ) (buffer_len : ℕ)
    → IsCopy copy
    → IsBuffer buf
    → All NonZero info
    → All NonZero ubuf
    → (min (length ubuf) (room buf) == 0) ≡ false
    → (copy.copy_from_user (take (min (length ubuf) (room buf)) ubuf) == 0) ≡ true
    → (copy.copy_to_user (extended info ubuf buf (min (length ubuf) (room buf))) == 0) ≡ true
    → bufsize ≤ buffer_len
    → ((my_read copy buffer_len 0 (my_write copy info ubuf buf).buf).result
        ≡ ok (extended info ubuf buf (min (length ubuf) (room buf))))
      × (string (my_read copy buffer_len 0 (my_write copy info ubuf buf).buf).buf ≡ [])
my_read-my_write copy info ubuf buf buffer_len is_copy b i u more copies reads h =
    let after = (my_write copy info ubuf buf).buf in
    let text = (my_write_lem copy is_copy info ubuf buf b i u more copies).1 in
    let read =
      my_read_lem copy buffer_len after h (ap (λ t. copy.copy_to_user t == 0) text ∙ reads) in
    (ap (λ r. r.result) read ∙ ap (λ t. ok t) text, ap (λ r. string r.buf) read ∙ string-zeros)
