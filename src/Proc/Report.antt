-- ===== src/Proc/Report.antt =====
-- lab3/3/3_2/3_2.c: what a thread does under the lock with /proc/Mythread_info: it writes its line, and
-- prints what it then reads. The file is opened by each thread for itself; `fwrite` and `fclose` make one call
-- of Mywrite, and the loop of `fgets` calls Myread until it gives no more bytes.
use ncku_operating_system.Base.{
  ℕ, ◌-◌, ◌≤◌, ◌<◌, ◌≡◌, refl, true, false, List, [], ◌∷◌, ◌++◌, arith, ltb, ◌==◌, min, take,
  length, length-append, length-take, All, ap, ◌∙◌,
}
use mathlib.Core.List.{append-nil}
use ncku_operating_system.Osfs.Types.{Result, ok, err}
use ncku_operating_system.Proc.{bufsize, strnlen, zeros, UserCopy, my_write, my_read}
use ncku_operating_system.Proc.Buffer.{NonZero}
use ncku_operating_system.Proc.Laws.{IsCopy, IsBuffer, string}
use ncku_operating_system.Proc.Content.{room, my_write_lem, my_read_lem}

-- The size with which the C library reads: `st_blksize` of a file of /proc.
abbrev pub stdio_size : ℕ
stdio_size = 1024

abbrev pub bytes_of : Result (List ℕ) → List ℕ
bytes_of (ok bytes) = bytes
bytes_of (err e) = []

pub record Report : Type 0 where
  pub printed : List ℕ
  pub buf : List ℕ

-- The part of a thread behind its product, with the lock: `line` is what the thread writes, `info` its
-- description in the kernel.
unfoldable pub report : UserCopy → (info line buf : List ℕ) → Report
report copy info line buf =
    let written = my_write copy info line buf in
    let read = my_read copy stdio_size 0 written.buf in
    let again = my_read copy stdio_size read.offset read.buf in
    record { printed = bytes_of read.result ++ bytes_of again.result; buf = again.buf }

-- Two threads, one behind the other.
unfoldable pub two_reports : UserCopy → (info₁ line₁ info₂ line₂ buf : List ℕ) → Report × Report
two_reports copy info₁ line₁ info₂ line₂ buf =
    let first = report copy info₁ line₁ buf in (first, report copy info₂ line₂ first.buf)

-- Copies that do not fault.
abbrev pub IsFaultless : UserCopy → Type 0
IsFaultless copy =
    ((bytes : List ℕ) → (copy.copy_from_user bytes == 0) ≡ true)
    × ((bytes : List ℕ) → (copy.copy_to_user bytes == 0) ≡ true)

-- A line of a thread.
abbrev pub IsLine : List ℕ → Type 0
IsLine line = All NonZero line × (1 ≤ length line) × (length line < bufsize)

zeros-empty : (IsBuffer (zeros bufsize)) × (strnlen (zeros bufsize) bufsize ≡ 0)
unfolding zeros strnlen
zeros-empty = ((refl, refl), refl)

again-at :
    (copy : UserCopy) (n : ℕ) (buf : List ℕ)
    → 1 ≤ n
    → my_read copy stdio_size n buf ≡ record { result = ok []; offset = n; buf = buf }
unfolding my_read
again-at copy n buf h = let later : ltb 0 n ≡ true = ground (arith, h) in rw later refl

take-whole : (xs : List ℕ) → take (length xs) xs ≡ xs
take-whole [] = refl
take-whole (x ∷ xs) = ap (λ ys. x ∷ ys) (take-whole xs)

-- What is printed: the line, and the description as far as there is room.
abbrev pub described : (info line : List ℕ) → List ℕ
described info line = line ++ take (bufsize - 1 - length line) info

module _ (copy : UserCopy) (is_copy : IsCopy copy) (faultless : IsFaultless copy) where
  written-string :
      (info line buf : List ℕ)
      → IsBuffer buf
      → strnlen buf bufsize ≡ 0
      → All NonZero info
      → IsLine line
      → string (my_write copy info line buf).buf ≡ described info line
  written-string info line buf b empty i l =
      let n = min (length line) (room buf) in
      let all : n ≡ length line = omega (arith, empty, l.2) in
      let more : (n == 0) ≡ false = ground (arith, all, l.1) in
      let nothing : string buf ≡ [] = ap (λ k. take k buf) empty in
      let whole : take n line ≡ line = ap (λ k. take k line) all ∙ take-whole line in
      let left : room buf - n ≡ bufsize - 1 - length line = omega (arith, all, empty) in
      (my_write_lem copy is_copy info line buf b i l.0 more (faultless.0 (take n line))).1
      ∙ ap (λ xs. (xs ++ take n line) ++ take (room buf - n) info) nothing
      ∙ ap (λ xs. xs ++ take (room buf - n) info) whole
      ∙ ap (λ k. line ++ take k info) left

  report_lem :
      (info line buf : List ℕ)
      → IsBuffer buf
      → strnlen buf bufsize ≡ 0
      → All NonZero info
      → IsLine line
      → report copy info line buf ≡ record { printed = described info line; buf = zeros bufsize }
  unfolding report
  report_lem info line buf b empty i l =
      let after = (my_write copy info line buf).buf in
      let text = written-string info line buf b empty i l in
      let read = my_read_lem copy stdio_size after (omega arith) (faultless.1 (string after)) in
      let some_bytes : 1 ≤ strnlen after bufsize = omega (
        arith,
        l.1,
        ap length text,
        length-append line (take (bufsize - 1 - length line) info),
        length-take (strnlen after bufsize) after,
      ) in
      let again = again-at copy (strnlen after bufsize) (zeros bufsize) some_bytes in
      rw (read, again)
        (rw text (
          ap (λ xs. record { printed = xs; buf = zeros bufsize })
            (append-nil (described info line))))

  -- Two threads that come to the lock one behind the other, in either order, with an empty buffer and copies that
  -- do not fault: each of them prints its own line and its own description, as far as there is room, and the
  -- buffer is empty again.
  pub two_reports_lem :
      (info₁ line₁ info₂ line₂ buf : List ℕ)
      → IsBuffer buf
      → strnlen buf bufsize ≡ 0
      → All NonZero info₁
      → All NonZero info₂
      → IsLine line₁
      → IsLine line₂
      → ((two_reports copy info₁ line₁ info₂ line₂ buf).0.printed ≡ described info₁ line₁)
        × ((two_reports copy info₁ line₁ info₂ line₂ buf).1.printed ≡ described info₂ line₂)
        × (string (two_reports copy info₁ line₁ info₂ line₂ buf).1.buf ≡ [])
  unfolding two_reports
  two_reports_lem info₁ line₁ info₂ line₂ buf b empty i₁ i₂ l₁ l₂ =
      let first = report_lem info₁ line₁ buf b empty i₁ l₁ in
      let second =
        ap (λ r. report copy info₂ line₂ r.buf) first
        ∙ report_lem info₂ line₂ (zeros bufsize) zeros-empty.0 zeros-empty.1 i₂ l₂ in
      (
        ap (λ r. r.printed) first,
        ap (λ r. r.printed) second,
        ap (λ r. string r.buf) second ∙ ap (λ k. take k (zeros bufsize)) zeros-empty.1,
      )
