-- ===== src/Shell/Process/Pipeline.antt =====
-- lab2/src/shell.c: the children of a pipeline, and the shell's descriptors behind it.
use ncku_operating_system.Base.{
  ℕ, suc, ◌≡◌, ◌⊎◌, refl, Bool, true, false, inl, inr, List, [], ◌∷◌, Option, none, some, ◌==◌,
  if◌then◌else◌, Text, ap, ◌∙◌,
}
use ncku_operating_system.Shell.Command.{CmdNode}
use ncku_operating_system.Shell.Process.{
  Handle, pipe_read, pipe_write, Table, look, close, opens_in, opens_out, Ends, fork_nodes,
  fork_cmd_node,
}
use ncku_operating_system.Shell.Process.Laws.{
  not-sym, set-same, differ, wired, both, spawn_proc-wired,
}
use ncku_operating_system.Shell.Process.Pipe.{
  half, fd1, piped, left, fd1-none, piped-old, left-old, left-fd0, all-closed,
}

-- The ends of the children of a pipeline: each file that is asked for, or the pipe to the neighbour, or
-- at the two ends of the pipeline the shell's own.
module _ (asks_in asks_out : CmdNode → Option (Option Handle)) (own_out : Handle) where
  abbrev pub pipeline_ends : List CmdNode → (from : Handle) → (pipes : ℕ) → List Ends
  pipeline_ends [] from pipes = []
  pipeline_ends (p ∷ []) from pipes =
      both (wired (asks_in p) from) (wired (asks_out p) own_out) ∷ []
  pipeline_ends (p ∷ q ∷ nodes) from pipes =
      both (wired (asks_in p) from) (wired (asks_out p) (pipe_write pipes))
      ∷ pipeline_ends (q ∷ nodes) (pipe_read pipes) (suc pipes)

abbrev IsHead : (is_head : Bool) (input : ℕ) → Type 0
IsHead is_head input = (is_head ≡ true) ⊎ (((0 == input) ≡ false) × ((1 == input) ≡ false))

keeps_0 :
    (is_head : Bool) (input : ℕ) → IsHead is_head input → (is_head ≡ true) ⊎ ((0 == input) ≡ false)
keeps_0 is_head input (inl e) = inl e
keeps_0 is_head input (inr e) = inr e.0

keeps_1 :
    (is_head : Bool) (input : ℕ) → IsHead is_head input → (is_head ≡ true) ⊎ ((1 == input) ≡ false)
keeps_1 is_head input (inl e) = inl e
keeps_1 is_head input (inr e) = inr e.1

cons-eq :
    {c c' : Ends} {cs cs' : List Ends} → c ≡ c' → cs ≡ cs' → ◌≡◌ {A = List Ends} (c ∷ cs) (c' ∷ cs')
cons-eq e f = rw (e, f) refl

module _ (fresh : Table → ℕ) (is_fresh : (t : Table) → look t (fresh t) ≡ none)
    (may_read may_write : Text → Bool) where
  fork_nodes-table :
      (nodes : List CmdNode) (p : CmdNode) (is_head : Bool) (input k : ℕ) (t : Table) (h : Handle)
      → look t input ≡ some h
      → (n : ℕ)
      → look (fork_nodes fresh may_read may_write (p ∷ nodes) is_head input k t).1 n
        ≡ look (if is_head then t else close t input) n
  unfolding fork_nodes
  fork_nodes-table [] p is_head input k t h e n = refl
  fork_nodes-table (q ∷ nodes) p is_head input k t h e n =
      fork_nodes-table nodes q false (fresh t) (suc k) (left fresh is_head input k t) (pipe_read k)
        (left-fd0 fresh is_fresh is_head input k t h e) n
      ∙ all-closed fresh is_fresh is_head input k t h e n

  -- For every pipeline and every table in which the standard input is open, if `fresh` gives a descriptor that
  -- is not open: when `fork_cmd_node` returns, the shell has the descriptors that it had before.
  pub fork_cmd_node-table :
      (p : CmdNode) (nodes : List CmdNode) (t : Table) (h : Handle)
      → look t 0 ≡ some h
      → (n : ℕ) → look (fork_cmd_node fresh may_read may_write (p ∷ nodes) t).1 n ≡ look t n
  fork_cmd_node-table p nodes t h e n = fork_nodes-table nodes p true 0 0 t h e n

  fork_nodes-ends :
      (nodes : List CmdNode) (p : CmdNode) (is_head : Bool) (input k : ℕ) (t : Table)
      (h i o : Handle)
      → look t input ≡ some h
      → look t 0 ≡ some i
      → look t 1 ≡ some o
      → IsHead is_head input
      → (fork_nodes fresh may_read may_write (p ∷ nodes) is_head input k t).0
        ≡ pipeline_ends
            (opens_in fresh may_read may_write)
            (opens_out fresh may_read may_write)
            o
            (p ∷ nodes)
            h
            k
  unfolding fork_nodes
  fork_nodes-ends [] p is_head input k t h i o e stdin stdout d =
      ap (λ c. c ∷ [])
        (spawn_proc-wired fresh is_fresh may_read may_write p t 1 i o o stdin stdout stdout refl
          input h e)
  fork_nodes-ends (q ∷ nodes) p is_head input k t h i o e stdin stdout d =
      let write_end = fd1 fresh is_head input k t in
      let made = piped fresh is_head input k t in
      let old_0 : look made 0 ≡ some i = piped-old fresh is_fresh is_head input k t h e 0 stdin in
      let old_1 : look made 1 ≡ some o = piped-old fresh is_fresh is_head input k t h e 1 stdout in
      let closed = fd1-none fresh is_fresh is_head input k t h e in
      let out_0 = differ t 0 write_end stdin closed in
      let out_1 = differ t 1 write_end stdout closed in
      let first =
        spawn_proc-wired fresh is_fresh may_read may_write p made write_end i o (pipe_write k) old_0
          old_1 (set-same (half fresh is_head input k t) write_end (some (pipe_write k)))
          (not-sym 0 write_end out_0) input h
          (piped-old fresh is_fresh is_head input k t h e input e) in
      let rest =
        fork_nodes-ends nodes q false (fresh t) (suc k) (left fresh is_head input k t) (pipe_read k)
          i o (left-fd0 fresh is_fresh is_head input k t h e)
          (left-old fresh is_fresh is_head input k t h e 0 old_0 out_0 (keeps_0 is_head input d))
          (left-old fresh is_fresh is_head input k t h e 1 old_1 out_1 (keeps_1 is_head input d))
          (inr
            (differ t 0 (fresh t) stdin (is_fresh t), differ t 1 (fresh t) stdout (is_fresh t))) in
      cons-eq first rest

  -- For every pipeline, and every table with a standard input and output, if `fresh` gives a descriptor that is
  -- not open: each child of `fork_cmd_node` reads from the file that is asked for, or from the pipe of the
  -- child in front, and writes to the file that is asked for, or into the pipe of the next child; the first
  -- one reads from the shell's input and the last one writes to the shell's output. A child exits when a file
  -- cannot be opened.
  pub fork_cmd_node-ends :
      (p : CmdNode) (nodes : List CmdNode) (t : Table) (i o : Handle)
      → look t 0 ≡ some i
      → look t 1 ≡ some o
      → (fork_cmd_node fresh may_read may_write (p ∷ nodes) t).0
        ≡ pipeline_ends
            (opens_in fresh may_read may_write)
            (opens_out fresh may_read may_write)
            o
            (p ∷ nodes)
            i
            0
  fork_cmd_node-ends p nodes t i o stdin stdout =
      fork_nodes-ends nodes p true 0 0 t i i o stdin stdin stdout (inl refl)
