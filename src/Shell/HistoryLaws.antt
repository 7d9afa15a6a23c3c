-- ===== src/Shell/HistoryLaws.antt =====
-- lab2/src/command.c and lab2/src/builtin.c: the lines in the history, and what `record` prints of them.
use ncku_operating_system.Base.{
  Text, cut_line, ℕ, zero, suc, ◌+◌, ◌-◌, ◌%◌, ◌≤◌, ◌<◌, ◌≡◌, refl, inl, inr, Bool, true, false,
  ◌||◌, if◌then◌else◌, Bool-cases, List, [], ◌∷◌, ◌++◌, Option, none, some, arith, ltb, ◌==◌,
  length, get_elem?, drop, length-append, length-drop, get_elem?-append_left,
  get_elem?-append_right, ap, ◌∙◌, ==_iff, subst, ltb→lt, ltb→le,
}
use mathlib.Core.List.{append_assoc, append-nil}
use ncku_operating_system.Shell.Command.{History, max_record_num, remember, read_line}
use ncku_operating_system.Shell.Builtin.{record_from, record_lines}

-- Lines with the numbers `number`, `number + 1`, ...
unfoldable pub numbered : (number : ℕ) → List Text → List (ℕ × Text)
numbered number [] = []
numbered number (l ∷ ls) = (number, l) ∷ numbered (suc number) ls

-- The lines `ls` have been remembered: the last 16 of them stand in their slots.
pub record IsHistory (h : History) (ls : List Text) : Type 0 where
  pub count : h.history_count ≡ length ls
  pub kept :
      (i : ℕ)
      → i < length ls
      → length ls ≤ i + max_record_num
      → get_elem? ls i ≡ some (h.slots (i % max_record_num))

-- Remembering a line puts it behind the others.
pub remember-IsHistory :
    (h : History) (ls : List Text) (l : Text)
    → IsHistory h ls
    → IsHistory (remember h l) (ls ++ l ∷ [])
unfolding remember
remember-IsHistory h ls l k = record {
  count = omega (arith, k.count, length-append ls (l ∷ []));
  kept = λ i below recent.
      let longer = length-append ls (l ∷ []) in
      elim (Bool-cases (ltb i (length ls))) [
        | inl old ↦
            let before : i < length ls = ltb→lt i (length ls) old in
            let other : (h.history_count % max_record_num == i % max_record_num) ≡ false =
              ground (arith, k.count, longer) in
            rw other
              (get_elem?-append_left ls (l ∷ []) i before ∙ k.kept i before (omega (arith, longer)))
        | inr new ↦
            let after = ltb→le i (length ls) new in
            let last : i ≡ length ls + 0 = omega (arith, longer) in
            let same : (h.history_count % max_record_num == i % max_record_num) ≡ true =
              (==_iff _ _).1 (ap (λ n. n % max_record_num) (omega (arith, k.count, last))) in
            rw same (ap (get_elem? (ls ++ l ∷ [])) last ∙ get_elem?-append_right ls (l ∷ []) 0)
      ];
}

record_from_lem :
    (slots : ℕ → Text) (xs : List Text) (i number : ℕ)
    → ((j : ℕ) → j < length xs → get_elem? xs j ≡ some (slots ((i + j) % max_record_num)))
    → record_from slots i number (length xs) ≡ numbered number xs
unfolding record_from numbered
record_from_lem slots [] i number at = refl
record_from_lem slots (x ∷ xs) i number at =
    let at_first : some x ≡ some (slots (i % max_record_num)) =
      at 0 (omega arith) ∙ ap (λ n. some (slots (n % max_record_num))) (omega arith) in
    let here : slots (i % max_record_num) ≡ x = cc at_first in
    let rest = record_from_lem slots xs (suc i) (suc number) (λ j h.
      at (suc j) (omega arith) ∙ ap (λ n. some (slots (n % max_record_num))) (omega arith)) in
    rw (here, rest) refl

get_elem?-drop : (n : ℕ) (ls : List Text) (j : ℕ) → get_elem? (drop n ls) j ≡ get_elem? ls (n + j)
get_elem?-drop zero ls j = ap (get_elem? ls) (omega arith)
get_elem?-drop (suc n) [] j = refl
get_elem?-drop (suc n) (l ∷ ls) j =
    let step : suc (n + j) ≡ suc n + j = omega arith in
    get_elem?-drop n ls j ∙ ap (get_elem? (l ∷ ls)) step

-- The last 16 lines.
abbrev pub recent : List Text → List Text
recent ls = drop (length ls - max_record_num) ls

module _ (h : History) (ls : List Text) (k : IsHistory h ls) where
  recent-slots :
      (s : ℕ)
      → s % max_record_num ≡ (length ls - max_record_num) % max_record_num
      → record_from h.slots s 1 (length (recent ls)) ≡ numbered 1 (recent ls)
  recent-slots s start =
      let n = length ls - max_record_num in
      record_from_lem h.slots (recent ls) s 1 λ j below.
        get_elem?-drop n ls j
        ∙ k.kept (n + j) (omega (arith, length-drop n ls)) (omega arith)
        ∙ ap (λ i. some (h.slots i)) (omega arith)

  IsHistory-record : record_lines h ≡ numbered 1 (recent ls)
  unfolding record_lines
  IsHistory-record = elim (Bool-cases (ltb h.history_count max_record_num)) [
    | inl few ↦
        let all : h.history_count ≡ length (recent ls) = omega (
          arith,
          length-drop (length ls - max_record_num) ls,
          k.count,
          ltb→lt h.history_count max_record_num few,
        ) in
        rw few (
          ap (record_from h.slots 0 1) all
          ∙ recent-slots 0 (omega (arith, k.count, ltb→lt h.history_count max_record_num few)))
    | inr many ↦
        let all : max_record_num ≡ length (recent ls) = omega (
          arith,
          length-drop (length ls - max_record_num) ls,
          k.count,
          ltb→le h.history_count max_record_num many,
        ) in
        rw many (
          ap (record_from h.slots (h.history_count % max_record_num) 1) all
          ∙ recent-slots (h.history_count % max_record_num)
              (omega (arith, k.count, ltb→le h.history_count max_record_num many)))
  ]

-- All lines remembered, the first one first.
unfoldable remember_all : History → List Text → History
remember_all h [] = h
remember_all h (l ∷ ls) = remember_all (remember h l) ls

remember_all-IsHistory :
    (h : History) (before ls : List Text)
    → IsHistory h before
    → IsHistory (remember_all h ls) (before ++ ls)
unfolding remember_all
remember_all-IsHistory h before [] k = subst (IsHistory h) (simp append-nil) k
remember_all-IsHistory h before (l ∷ ls) k =
    subst (IsHistory (remember_all (remember h l) ls)) (simp append_assoc) (
      remember_all-IsHistory (remember h l) (before ++ l ∷ []) ls (remember-IsHistory h before l k))

-- After any lines have been remembered, `record` prints the last 16 of them in order, numbered from 1.
record_lines-remember_all :
    (slots : ℕ → Text) (ls : List Text)
    → record_lines (remember_all (record { slots = slots; history_count = 0 }) ls)
      ≡ numbered 1 (recent ls)
record_lines-remember_all slots ls = IsHistory-record _ ls (
    remember_all-IsHistory (record { slots = slots; history_count = 0 }) [] ls
      (record { count = refl; kept = λ i below r. absurd (omega arith) }))

-- The history after the inputs have been read, the first one first.
unfoldable pub read_all : History → List (Option Text) → History
read_all h [] = h
read_all h (input ∷ inputs) = read_all (read_line h input).1 inputs

-- A line that starts with a newline, a blank or a tab.
abbrev pub is_skipped : Text → Bool
is_skipped [] = false
is_skipped (c ∷ rest) = c == b'\n' || c == b' ' || c == b'\t'

-- What `record` is to know of the inputs: all lines, without their newline, but for those at which
-- there was nothing to read and those that are skipped.
unfoldable pub recorded : List (Option Text) → List Text
recorded [] = []
recorded (none ∷ inputs) = recorded inputs
recorded (some l ∷ inputs) =
    let rest = recorded inputs in if is_skipped l then rest else cut_line l ∷ rest

read_all-remember_all :
    (h : History) (inputs : List (Option Text))
    → read_all h inputs ≡ remember_all h (recorded inputs)
unfolding read_all remember_all read_line recorded
read_all-remember_all h [] = refl
read_all-remember_all h (none ∷ inputs) = read_all-remember_all h inputs
read_all-remember_all h (some [] ∷ inputs) = read_all-remember_all (remember h (cut_line [])) inputs
read_all-remember_all h (some (c ∷ l) ∷ inputs) = elim (Bool-cases (is_skipped (c ∷ l))) [
  | inl skipped ↦ rw skipped (read_all-remember_all h inputs)
  | inr kept ↦ rw kept (read_all-remember_all (remember h (cut_line (c ∷ l))) inputs)
]

-- After `read_line` has been called for any inputs, fewer than 2 ^ 31, from a history of no lines, `record` prints the last
-- 16 of the recorded lines in order, numbered from 1: the lines that do not start with a newline, a
-- blank or a tab, each without its newline.
pub record_lines-read_all :
    (slots : ℕ → Text) (inputs : List (Option Text))
    → length inputs < 2147483648
    → record_lines (read_all (record { slots = slots; history_count = 0 }) inputs)
      ≡ numbered 1 (recent (recorded inputs))
record_lines-read_all slots inputs h =
    ap record_lines (read_all-remember_all (record { slots = slots; history_count = 0 }) inputs)
    ∙ record_lines-remember_all slots (recorded inputs)
