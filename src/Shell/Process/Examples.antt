-- ===== src/Shell/Process/Examples.antt =====
-- lab2/src/shell.c: a pipeline and a built-in command.
use ncku_operating_system.Base.{ℕ, ◌≡◌, refl, true, false, ltb, [], ◌∷◌, none, some, arith}
use ncku_operating_system.Shell.Command.{CmdNode}
use ncku_operating_system.Shell.Process.{
  inherited, Table, look, opens_in, opens_out, fork_cmd_node, run_built_in,
}
use ncku_operating_system.Shell.Process.Pipeline.{
  pipeline_ends, fork_cmd_node-table, fork_cmd_node-ends,
}
use ncku_operating_system.Shell.Process.BuiltIn.{Restores, run_built_in-Restores}

-- The shell's own input, output and error output.
abbrev own : Table
own = record { handles = λ n. some (inherited n); limit = 3 }

-- A system that gives the first descriptor behind all that have been used.
abbrev next : Table → ℕ
next t = t.limit

next-none : (t : Table) → look t (next t) ≡ none
unfolding look
next-none t = let outside : ltb t.limit t.limit ≡ false = ground arith in rw outside refl

abbrev producer : CmdNode
producer = record { args = (b'l' ∷ b's' ∷ []) ∷ []; in_file = none; out_file = none }

abbrev consumer : CmdNode
consumer = record { args = (b'w' ∷ b'c' ∷ []) ∷ []; in_file = none; out_file = some (b'o' ∷ []) }

fork_cmd_node-ends_example :
    (fork_cmd_node next (λ f. true) (λ f. true) (producer ∷ consumer ∷ []) own).0
    ≡ pipeline_ends
        (opens_in next (λ f. true) (λ f. true))
        (opens_out next (λ f. true) (λ f. true))
        (inherited 1)
        (producer ∷ consumer ∷ [])
        (inherited 0)
        0
unfolding look
fork_cmd_node-ends_example =
    fork_cmd_node-ends next next-none (λ f. true) (λ f. true) producer (consumer ∷ []) own
      (inherited 0) (inherited 1) refl refl

fork_cmd_node-table_example :
    look (fork_cmd_node next (λ f. true) (λ f. true) (producer ∷ consumer ∷ []) own).1 4
    ≡ look own 4
unfolding look
fork_cmd_node-table_example =
    fork_cmd_node-table next next-none (λ f. true) (λ f. true) producer (consumer ∷ []) own
      (inherited 0) refl 4

run_built_in-Restores_example :
    Restores next next-none
      (λ f. true)
      (λ f. true)
      consumer
      own
      (inherited 0)
      (inherited 1)
      (run_built_in next (λ f. true) (λ f. true) consumer own)
unfolding look
run_built_in-Restores_example =
    run_built_in-Restores next next-none (λ f. true) (λ f. true) consumer own (inherited 0)
      (inherited 1) refl refl
