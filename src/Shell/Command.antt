-- ===== src/Shell/Command.antt =====
-- lab2/src/command.c: reading a line, the history, and splitting a line into the commands of a pipeline.
use ncku_operating_system.Base.{
  ℕ, suc, ◌%◌, ◌||◌, List, [], ◌∷◌, ◌++◌, Option, none, some, leb, ◌==◌, if◌then◌else◌, update,
  length, Text, cut_line,
}

abbrev pub max_record_num : ℕ
max_record_num = 16

-- `args_length` of `split_line`.
abbrev pub args_length : ℕ
args_length = 10

-- The first character; 0 for the empty string.
abbrev pub first : Text → ℕ
first [] = 0
first (c ∷ rest) = c

-- `history` and `history_count`, which is an `int`: the model is for fewer than 2 ^ 31 lines.
pub record History : Type 0 where
  pub slots : ℕ → Text
  pub history_count : ℕ

-- `strncpy(history[history_count % MAX_RECORD_NUM], buffer, BUF_SIZE); ++history_count`.
unfoldable pub remember : History → Text → History
remember h line = record {
  slots = update h.slots (h.history_count % max_record_num) line;
  history_count = suc h.history_count;
}

-- What `read_line` returns: `NULL`, a line, or (at the end of the input) a buffer that nobody has filled.
pub data LineRead : Type 0 where
  no_line unfilled : LineRead
  line : Text → LineRead

-- `input` is what `fgets` has read, `none` for its `NULL`.
unfoldable pub read_line : History → (input : Option Text) → LineRead × History
read_line h none = (unfilled, h)
read_line h (some buffer) =
    if first buffer == 10 || first buffer == 32 || first buffer == 9
    then (no_line, h)
    else (line (cut_line buffer), remember h (cut_line buffer))

-- `struct cmd_node`; `args` holds the `length` strings that are set. The file descriptors `in` and `out`
-- are 0 and 1 in every node that `split_line` makes.
pub record CmdNode : Type 0 where
  pub args : List Text
  pub in_file : Option Text
  pub out_file : Option Text

-- `struct cmd` with the list of its nodes.
pub record Cmd : Type 0 where
  pub nodes : List CmdNode
  pub pipe_num : ℕ

abbrev pub new_node : CmdNode
new_node = record { args = []; in_file = none; out_file = none }

-- The loop over the tokens of `strtok(line, " ")`. `done` are the nodes in front of the current one,
-- `temp`. `none` is a write behind the end of `args`. After its last token `strtok` gives `NULL` again
-- and again.
unfoldable pub split_tokens :
    List Text → (done : List CmdNode) → (temp : CmdNode) → (pipe_num : ℕ) → Option Cmd
split_tokens [] done temp pipe_num =
    some (record { nodes = done ++ temp ∷ []; pipe_num = pipe_num })
split_tokens (token ∷ []) done temp pipe_num =
    if first token == b'|'
    then some (record { nodes = (done ++ temp ∷ []) ++ new_node ∷ []; pipe_num = suc pipe_num })
    else if first token == b'<'
    then some
        (record { nodes = done ++ record temp { in_file = none } ∷ []; pipe_num = suc pipe_num })
    else if first token == b'>'
    then some
        (record { nodes = done ++ record temp { out_file = none } ∷ []; pipe_num = suc pipe_num })
    else if leb args_length (length temp.args)
    then none
    else some (record {
      nodes = done ++ record temp { args = temp.args ++ token ∷ [] } ∷ [];
      pipe_num = suc pipe_num;
    })
split_tokens (token ∷ next ∷ rest) done temp pipe_num =
    let new_pipe = split_tokens (next ∷ rest) (done ++ temp ∷ []) new_node (suc pipe_num) in
    let with_in = split_tokens rest done (record temp { in_file = some next }) (suc pipe_num) in
    let with_out = split_tokens rest done (record temp { out_file = some next }) (suc pipe_num) in
    let with_arg =
      split_tokens (next ∷ rest) done (record temp { args = temp.args ++ token ∷ [] })
        (suc pipe_num) in
    if first token == b'|'
    then new_pipe
    else if first token == b'<'
    then with_in
    else if first token == b'>'
    then with_out
    else if leb args_length (length temp.args)
    then none
    else with_arg

-- `tokens` is what `strtok` makes of the line.
unfoldable pub split_line : (tokens : List Text) → Option Cmd
split_line tokens = split_tokens tokens [] new_node 0
