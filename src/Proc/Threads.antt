-- ===== src/Proc/Threads.antt =====
-- lab3/3/3_1/My_Kernel.c: Myread, which prints a line for each other thread into the buffer and gives the
-- lines to the user.
use ncku_operating_system.Base.{
  ℕ, ◌+◌, ◌≤◌, ◌<◌, ◌≡◌, refl, true, List, [], ◌∷◌, ◌++◌, arith, ltb, ◌==◌, if◌then◌else◌, take,
  length, length-append, length-take, ap, sym, ◌∙◌,
}
use mathlib.Core.List.{append_assoc, append-nil}
use ncku_operating_system.Osfs.Types.{ok, err, efault}
use ncku_operating_system.Proc.{bufsize, overwrite, UserCopy, ReadResult}
use ncku_operating_system.Proc.Laws.{overwrite-text}
use ncku_operating_system.Proc.Buffer.{take-append_exact, length-overwrite}

-- The buffer and `*offset` behind the loop: `sprintf` writes each line and a NUL.
unfoldable pub print_threads : (lines : List (List ℕ)) → (offset : ℕ) → (buf : List ℕ) → ℕ × List ℕ
print_threads [] offset buf = (offset, buf)
print_threads (line ∷ lines) offset buf =
    print_threads lines (offset + length line) (overwrite buf offset (line ++ 0 ∷ []))

-- `Myread`; `lines` are the lines of the other threads.
unfoldable pub read_threads :
    UserCopy → (lines : List (List ℕ)) → (offset : ℕ) → (buf : List ℕ) → ReadResult
read_threads copy lines offset buf =
    let printed = print_threads lines offset buf in
    let text = take printed.0 printed.1 in
    if ltb 0 offset
    then record { result = ok []; offset = offset; buf = buf }
    else if copy.copy_to_user text == 0
    then record { result = ok text; offset = printed.0; buf = printed.1 }
    else record { result = err efault; offset = printed.0; buf = printed.1 }

abbrev pub concat : List (List ℕ) → List ℕ
concat [] = []
concat (line ∷ lines) = line ++ concat lines

text-in-front :
    (buf : List ℕ) (a : ℕ) (text : List ℕ)
    → a ≤ length buf
    → take (a + length text) (overwrite buf a (text ++ 0 ∷ [])) ≡ take a buf ++ text
text-in-front buf a text h =
    let front = take a buf ++ text in
    let size : a + length text ≡ length front =
      omega (arith, h, length-append (take a buf) text, length-take a buf) in
    ap (λ n. take n (overwrite buf a (text ++ 0 ∷ []))) size
    ∙ ap (take (length front)) (overwrite-text buf a text)
    ∙ take-append_exact front _

-- Lines that fit stay in the buffer, one behind the other.
print_threads-fit :
    (lines : List (List ℕ)) (offset : ℕ) (buf : List ℕ)
    → offset + length (concat lines) < length buf
    → ((print_threads lines offset buf).0 ≡ offset + length (concat lines))
      × (length (print_threads lines offset buf).1 ≡ length buf)
      × (take (offset + length (concat lines)) (print_threads lines offset buf).1
          ≡ take offset buf ++ concat lines)
unfolding print_threads
print_threads-fit [] offset buf h =
    let same : offset ≡ offset + 0 = omega arith in
    (same, refl, ap (λ n. take n buf) (sym same) ∙ sym (append-nil (take offset buf)))
print_threads-fit (line ∷ lines) offset buf h =
    let next = overwrite buf offset (line ++ 0 ∷ []) in
    let parts = length-append line (concat lines) in
    let size : length next ≡ length buf =
      length-overwrite buf offset (line ++ 0 ∷ [])
        (omega (arith, h, parts, length-append line (0 ∷ []))) in
    let rest =
      print_threads-fit lines (offset + length line) next (omega (arith, h, parts, size)) in
    let total : offset + length line + length (concat lines)
        ≡ offset + length (line ++ concat lines) =
      omega (arith, parts) in
    (
      rest.0 ∙ total,
      rest.1 ∙ size,
      ap (λ n. take n (print_threads lines (offset + length line) next).1) (sym total)
          ∙ rest.2
          ∙ ap (λ xs. xs ++ concat lines) (text-in-front buf offset line (omega (arith, h)))
          ∙ append_assoc (take offset buf) line (concat lines),
    )

-- From position 0, if the lines and a NUL fit in the buffer and the copy does not fault: the lines are given to the
-- user one behind the other, the position is behind them, and nothing is
-- written behind the buffer.
pub read_threads_lem :
    (copy : UserCopy) (lines : List (List ℕ)) (buf : List ℕ)
    → length buf ≡ bufsize
    → length (concat lines) < bufsize
    → (copy.copy_to_user (concat lines) == 0) ≡ true
    → ((read_threads copy lines 0 buf).result ≡ ok (concat lines))
      × ((read_threads copy lines 0 buf).offset ≡ length (concat lines))
      × (length (read_threads copy lines 0 buf).buf ≡ bufsize)
unfolding read_threads
read_threads_lem copy lines buf size h copies =
    let fit = print_threads-fit lines 0 buf (omega (arith, size, h)) in
    let from : 0 + length (concat lines) ≡ length (concat lines) = omega arith in
    let text : take (print_threads lines 0 buf).0 (print_threads lines 0 buf).1 ≡ concat lines =
      ap (λ n. take n (print_threads lines 0 buf).1) fit.0 ∙ fit.2 in
    rw (text, copies) (refl, fit.0 ∙ from, fit.1 ∙ size)
