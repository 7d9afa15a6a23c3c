-- ===== src/Shell/Builtin.antt =====
-- lab2/src/builtin.c: the built-in commands.
use ncku_operating_system.Base.{
  ℕ, zero, suc, ◌%◌, Bool, true, false, ◌&&◌, List, [], ◌∷◌, ◌++◌, Option, none, some, ltb, ◌==◌,
  if◌then◌else◌, Text, text_eq,
}
use ncku_operating_system.Shell.Command.{History, max_record_num}

-- `builtin_str`.
abbrev pub builtin_str : List Text
builtin_str =
    (b'h' ∷ b'e' ∷ b'l' ∷ b'p' ∷ [])
    ∷ (b'c' ∷ b'd' ∷ [])
    ∷ (b'p' ∷ b'w' ∷ b'd' ∷ [])
    ∷ (b'e' ∷ b'c' ∷ b'h' ∷ b'o' ∷ [])
    ∷ (b'e' ∷ b'x' ∷ b'i' ∷ b't' ∷ [])
    ∷ (b'r' ∷ b'e' ∷ b'c' ∷ b'o' ∷ b'r' ∷ b'd' ∷ [])
    ∷ []

-- The loop of `searchBuiltInCommand`; `none` for -1.
unfoldable pub search_from : (i : ℕ) → List Text → Text → Option ℕ
search_from i [] name = none
search_from i (s ∷ rest) name =
    let later = search_from (suc i) rest name in if text_eq name s then some i else later

unfoldable pub search_built_in_command : Text → Option ℕ
search_built_in_command name = search_from 0 builtin_str name

-- The loop of `echo` over the arguments from `args[i]` on: whether a newline ends the output, and the
-- output so far.
unfoldable pub echo_loop : (i : ℕ) → List Text → Bool → Text → Bool × Text
echo_loop i [] newline out = (newline, out)
echo_loop i (a ∷ []) newline out =
    if i == 1 && text_eq a (b'-' ∷ b'n' ∷ []) then (false, out) else (newline, out ++ a)
echo_loop i (a ∷ b ∷ rest) newline out =
    let skipped = echo_loop (suc i) (b ∷ rest) false out in
    let printed = echo_loop (suc i) (b ∷ rest) newline ((out ++ a) ++ 32 ∷ []) in
    if i == 1 && text_eq a (b'-' ∷ b'n' ∷ []) then skipped else printed

-- The output of `echo`, given its arguments after `args[0]`.
unfoldable pub echo : List Text → Text
echo args = let r = echo_loop 1 args true [] in if r.0 then r.1 ++ 10 ∷ [] else r.1

-- The lines that `record` prints, each with its number: `rounds` slots from `history[i % 16]` on.
unfoldable pub record_from : (ℕ → Text) → (i number rounds : ℕ) → List (ℕ × Text)
record_from slots i number zero = []
record_from slots i number (suc rounds) =
    (number, slots (i % max_record_num)) ∷ record_from slots (suc i) (suc number) rounds

unfoldable pub record_lines : History → List (ℕ × Text)
record_lines h =
    if ltb h.history_count max_record_num
    then record_from h.slots 0 1 h.history_count
    else record_from h.slots (h.history_count % max_record_num) 1 max_record_num
