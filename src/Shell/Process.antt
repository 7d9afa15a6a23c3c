-- ===== src/Shell/Process.antt =====
-- lab2/src/shell.c: the descriptors of the shell and of the processes that it starts. `fork` is taken to
-- succeed; a child has a copy of the shell's table of descriptors, which `execvp` keeps.
pub mod Laws
pub mod Pipe
pub mod Pipeline
pub mod BuiltIn
pub mod Examples
use ncku_operating_system.Base.{
  ℕ, zero, suc, ◌≡◌, Bool, true, false, List, [], ◌∷◌, Option, none, some, ◌+◌, ltb, ◌==◌,
  if◌then◌else◌, Text,
}
use ncku_operating_system.Shell.Command.{CmdNode}

-- What a descriptor leads to: the two ends of a pipe, by its number, a file, or something else that the shell
-- has been started with.
pub data Handle : Type 0 where
  pipe_read : ℕ → Handle
  pipe_write : ℕ → Handle
  file_read : Text → Handle
  file_write : Text → Handle
  inherited : ℕ → Handle

-- A table of descriptors; those from `limit` on are not open.
pub record Table : Type 0 where
  pub handles : ℕ → Option Handle
  pub limit : ℕ

-- What a descriptor leads to, if it is open.
unfoldable pub look : Table → (fd : ℕ) → Option Handle
look t fd = if ltb fd t.limit then t.handles fd else none

unfoldable pub set : Table → (fd : ℕ) → Option Handle → Table
set t fd h = record { handles = λ n. if n == fd then h else look t n; limit = suc (t.limit + fd) }

-- `close`, `dup2` and the system calls that give a descriptor; `dup2` fails if the first one is not open.
abbrev pub close : Table → (fd : ℕ) → Table
close t fd = set t fd none

unfoldable pub dup2 : Table → (from to : ℕ) → Table
dup2 t from to = elim (look t from) [ none ↦ t | some h ↦ set t to (some h) ]

-- What a child has as its standard input and output; `none` if it exits before `execvp`.
abbrev pub Ends : Type 0
Ends = Option (Option Handle × Option Handle)

abbrev pub back : (target : ℕ) → Option Text → (copy : ℕ) → Table → Table
back target none copy t = t
back target (some f) copy t = dup2 t copy target

-- The recovery of the shell's own input and output behind a built-in command.
unfoldable pub recover : CmdNode → (in_copy out_copy : ℕ) → Table → Table
recover p in_copy out_copy t =
    close (close (back 1 p.out_file out_copy (back 0 p.in_file in_copy t)) in_copy) out_copy

abbrev pub ends : Option Table → Ends
ends none = none
ends (some t) = some (look t 0, look t 1)

-- The file that is asked for, if any, and what it leads to if it can be opened.
abbrev pub asked : (Text → Bool) → (Text → Handle) → Option Text → Option (Option Handle)
asked may leads none = none
asked may leads (some f) = some (if may f then some (leads f) else none)

-- `fresh t` is the descriptor that the system gives next.
module _ (fresh : Table → ℕ) where
  -- One half of `redirection`: the file that is asked for, or else the descriptor of a pipe.
  unfoldable pub redirect :
      (target : ℕ) → Option (Option Handle) → (source : ℕ) → Table → Option Table
  redirect target none source t = some (if source == target then t else dup2 t source target)
  redirect target (some none) source t = none
  redirect target (some (some h)) source t =
      let fd = fresh t in some (close (dup2 (set t fd (some h)) fd target) fd)

-- The other two say whether a file can be opened.
module _ (fresh : Table → ℕ) (may_read may_write : Text → Bool) where
  abbrev pub opens_in : CmdNode → Option (Option Handle)
  opens_in p = asked may_read file_read p.in_file

  abbrev pub opens_out : CmdNode → Option (Option Handle)
  opens_out p = asked may_write file_write p.out_file

  abbrev pub and_out : CmdNode → (output : ℕ) → Option Table → Option Table
  and_out p output none = none
  and_out p output (some t) = redirect fresh 1 (opens_out p) output t

  -- `redirection`, of a node with these `in` and `out`; `none` is a call of `exit`.
  unfoldable pub redirection : CmdNode → (input output : ℕ) → Table → Option Table
  redirection p input output t = and_out p output (redirect fresh 0 (opens_in p) input t)

  -- `spawn_proc`: the child's ends; the shell's table stays.
  unfoldable pub spawn_proc : CmdNode → (input output : ℕ) → Table → Ends
  spawn_proc p input output t = ends (redirection p input output t)

  -- `fork_cmd_node` from a node on, with the descriptor that stands in its `in` and the number of pipes made:
  -- the children, and the shell's table.
  unfoldable pub fork_nodes :
      List CmdNode → (is_head : Bool) → (input pipes : ℕ) → Table → List Ends × Table
  fork_nodes [] is_head input pipes t = ([], t)
  fork_nodes (p ∷ []) is_head input pipes t =
      (spawn_proc p input 1 t ∷ [], if is_head then t else close t input)
  fork_nodes (p ∷ q ∷ nodes) is_head input pipes t =
      let fd0 = fresh t in
      let half = set t fd0 (some (pipe_read pipes)) in
      let fd1 = fresh half in
      let piped = set half fd1 (some (pipe_write pipes)) in
      let closed = if is_head then piped else close piped input in
      let rest = fork_nodes (q ∷ nodes) false fd0 (suc pipes) (close closed fd1) in
      (spawn_proc p input fd1 piped ∷ rest.0, rest.1)

  abbrev pub fork_cmd_node : List CmdNode → Table → List Ends × Table
  fork_cmd_node nodes t = fork_nodes nodes true 0 0 t

  -- The path of a built-in command in `shell`: the table with which the command runs, and the shell's table
  -- behind it; `none` if the shell exits.
  unfoldable pub run_built_in : CmdNode → Table → Option (Table × Table)
  run_built_in p t =
      let in_copy = fresh t in
      let once = set t in_copy (look t 0) in
      let out_copy = fresh once in
      let twice = set once out_copy (look once 1) in
      elim (redirection p 0 1 twice) [
        | none ↦ none
        | some running ↦ some (running, recover p in_copy out_copy running)
      ]
