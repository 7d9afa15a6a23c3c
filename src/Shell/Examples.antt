-- ===== src/Shell/Examples.antt =====
-- lab2: the theorems about the command line at concrete inputs, and runs of the code on them.
use ncku_operating_system.Base.{
  Text, text_eq, ◌≡◌, refl, List, [], ◌∷◌, Option, none, some, arith, cut_line,
}
use ncku_operating_system.Shell.Command.{CmdNode, split_line}
use ncku_operating_system.Shell.Builtin.{
  search_from, search_built_in_command, echo, echo_loop, record_lines,
}
use ncku_operating_system.Shell.SplitLaws.{line_tokens, nodes_of, split_line-line_tokens}
use ncku_operating_system.Shell.HistoryLaws.{
  numbered, recent, read_all, recorded, record_lines-read_all,
}

abbrev ls_text : Text
ls_text = b'l' ∷ b's' ∷ []

abbrev wc_text : Text
wc_text = b'w' ∷ b'c' ∷ []

abbrev ls_node : CmdNode
ls_node = record { args = ls_text ∷ []; in_file = none; out_file = none }

abbrev wc_node : CmdNode
wc_node = record { args = wc_text ∷ []; in_file = none; out_file = some (b'o' ∷ []) }

-- `ls | wc > o`.
split_line-line_tokens_example :
    nodes_of (split_line (line_tokens ls_node (wc_node ∷ []))) ≡ some (ls_node ∷ wc_node ∷ [])
split_line-line_tokens_example =
    split_line-line_tokens ls_node (wc_node ∷ [])
      (((omega arith, omega arith, omega arith), tt), omega arith)
      ((((omega arith, omega arith, omega arith), tt), omega arith), tt)

-- "ls", a line that starts with a blank, the end of the input, and "wc".
abbrev inputs : List (Option Text)
inputs =
    some (b'l' ∷ b's' ∷ b'\n' ∷ [])
    ∷ some (b' ' ∷ b'l' ∷ b's' ∷ b'\n' ∷ [])
    ∷ none
    ∷ some (b'w' ∷ b'c' ∷ b'\n' ∷ [])
    ∷ []

record_lines-read_all_example :
    record_lines (read_all (record { slots = λ i. []; history_count = 0 }) inputs)
    ≡ numbered 1 (recent (recorded inputs))
record_lines-read_all_example = record_lines-read_all (λ i. []) inputs (omega arith)

recorded-inputs : recorded inputs ≡ ls_text ∷ wc_text ∷ []
unfolding recorded cut_line
recorded-inputs = refl

pwd_is_2 : search_built_in_command (b'p' ∷ b'w' ∷ b'd' ∷ []) ≡ some 2
unfolding search_built_in_command search_from text_eq
pwd_is_2 = refl

-- `echo -n ls wc` and `echo ls`.
echo_without_newline :
    echo ((b'-' ∷ b'n' ∷ []) ∷ ls_text ∷ wc_text ∷ []) ≡ b'l' ∷ b's' ∷ 32 ∷ b'w' ∷ b'c' ∷ []
unfolding echo echo_loop text_eq
echo_without_newline = refl

echo_with_newline : echo (ls_text ∷ []) ≡ b'l' ∷ b's' ∷ 10 ∷ []
unfolding echo echo_loop text_eq
echo_with_newline = refl
