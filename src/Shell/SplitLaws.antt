-- ===== src/Shell/SplitLaws.antt =====
-- lab2/src/command.c: `split_line` on the tokens of a pipeline.
use ncku_operating_system.Base.{
  Text, ℕ, suc, ◌+◌, ◌≤◌, ◌<◌, ◌≡◌, ◌≢◌, refl, false, List, [], ◌∷◌, ◌++◌, Option, none, some,
  arith, leb, ◌==◌, length, length-append, ap, sym, ◌∙◌, All,
}
use mathlib.Core.List.{append_assoc, append-nil}
use ncku_operating_system.Shell.Command.{
  args_length, first, CmdNode, Cmd, new_node, split_tokens, split_line,
}

-- A token that is an argument.
abbrev pub IsArg : Text → Type 0
IsArg token = (first token ≢ b'|') × (first token ≢ b'<') × (first token ≢ b'>')

-- A node that a line can spell: not more than ten arguments, none of which looks like an operator.
abbrev pub IsNode : CmdNode → Type 0
IsNode node = All IsArg node.args × (length node.args ≤ args_length)

abbrev pub redirect : ℕ → Option Text → List Text
redirect c none = []
redirect c (some file) = (c ∷ []) ∷ file ∷ []

-- The tokens of a node: its arguments, `< file`, `> file`.
abbrev pub node_tokens : CmdNode → List Text
node_tokens node = node.args ++ redirect b'<' node.in_file ++ redirect b'>' node.out_file

-- The tokens of a pipeline, nodes joined by `|`.
unfoldable pub line_tokens : CmdNode → List CmdNode → List Text
line_tokens node [] = node_tokens node
line_tokens node (next ∷ nodes) = node_tokens node ++ (b'|' ∷ []) ∷ line_tokens next nodes

split_tokens-arg :
    (token : Text) (rest : List Text) (done : List CmdNode) (temp : CmdNode) (k : ℕ)
    → IsArg token
    → length temp.args < args_length
    → split_tokens (token ∷ rest) done temp k
      ≡ split_tokens rest done (record temp { args = temp.args ++ token ∷ [] }) (suc k)
unfolding split_tokens
split_tokens-arg token rest done temp k (no_pipe, no_in, no_out) room = go rest
  where
    p : (first token == b'|') ≡ false
    p = ground (arith, no_pipe)

    i : (first token == b'<') ≡ false
    i = ground (arith, no_in)

    o : (first token == b'>') ≡ false
    o = ground (arith, no_out)

    fits : leb args_length (length temp.args) ≡ false
    fits = ground arith

    go :
        (rest : List Text)
        → split_tokens (token ∷ rest) done temp k
          ≡ split_tokens rest done (record temp { args = temp.args ++ token ∷ [] }) (suc k)
    go [] = rw (p, i, o, fits) refl
    go (next ∷ rest) = rw (p, i, o, fits) refl

split_tokens-args :
    (xs rest : List Text) (done : List CmdNode) (temp : CmdNode) (k : ℕ)
    → All IsArg xs
    → length temp.args + length xs ≤ args_length
    → (k' : ℕ) × (split_tokens (xs ++ rest) done temp k
        ≡ split_tokens rest done (record temp { args = temp.args ++ xs }) k')
split_tokens-args [] rest done temp k all room =
    (k, ap (λ args. split_tokens rest done (record temp { args = args }) k) (simp append-nil))
split_tokens-args (x ∷ xs) rest done temp k all room =
    let (k', e) =
      split_tokens-args xs rest done (record temp { args = temp.args ++ x ∷ [] }) (suc k) all.1
        (omega (arith, length-append temp.args (x ∷ []))) in
    (
      k',
      split_tokens-arg x (xs ++ rest) done temp k all.0 (omega arith)
          ∙ e
          ∙ ap (λ args. split_tokens rest done (record temp { args = args }) k')
              (simp append_assoc),
    )

split_tokens-in :
    (o : Option Text) (rest : List Text) (done : List CmdNode) (temp : CmdNode) (k : ℕ)
    → temp.in_file ≡ none
    → (k' : ℕ) × (split_tokens (redirect b'<' o ++ rest) done temp k
        ≡ split_tokens rest done (record temp { in_file = o }) k')
unfolding split_tokens
split_tokens-in none rest done temp k e =
    (k, ap (λ file. split_tokens rest done (record temp { in_file = file }) k) e)
split_tokens-in (some file) rest done temp k e = (suc k, refl)

split_tokens-out :
    (o : Option Text) (rest : List Text) (done : List CmdNode) (temp : CmdNode) (k : ℕ)
    → temp.out_file ≡ none
    → (k' : ℕ) × (split_tokens (redirect b'>' o ++ rest) done temp k
        ≡ split_tokens rest done (record temp { out_file = o }) k')
unfolding split_tokens
split_tokens-out none rest done temp k e =
    (k, ap (λ file. split_tokens rest done (record temp { out_file = file }) k) e)
split_tokens-out (some file) rest done temp k e = (suc k, refl)

split_tokens-pipe :
    (rest : List Text) (done : List CmdNode) (temp : CmdNode) (k : ℕ)
    → split_tokens ((b'|' ∷ []) ∷ rest) done temp k
      ≡ split_tokens rest (done ++ temp ∷ []) new_node (suc k)
unfolding split_tokens
split_tokens-pipe [] done temp k = refl
split_tokens-pipe (next ∷ rest) done temp k = refl

split_tokens-node :
    (node : CmdNode) (rest : List Text) (done : List CmdNode) (k : ℕ)
    → IsNode node
    → (k' : ℕ) × (split_tokens (node_tokens node ++ rest) done new_node k
        ≡ split_tokens rest done node k')
split_tokens-node node rest done k (all, short) =
    let after_in = redirect b'>' node.out_file ++ rest in
    let (k₁, e₁) =
      split_tokens-args node.args (redirect b'<' node.in_file ++ after_in) done new_node k all
        (omega (arith, short)) in
    let (k₂, e₂) =
      split_tokens-in node.in_file after_in done (record new_node { args = node.args }) k₁ refl in
    let (k₃, e₃) =
      split_tokens-out node.out_file rest done
        (record new_node { args = node.args; in_file = node.in_file }) k₂ refl in
    (k₃, ap (λ tokens. split_tokens tokens done new_node k) (simp append_assoc) ∙ e₁ ∙ e₂ ∙ e₃)

-- The nodes of what a line is split into.
abbrev pub nodes_of : Option Cmd → Option (List CmdNode)
nodes_of none = none
nodes_of (some cmd) = some cmd.nodes

split_tokens-line :
    (node : CmdNode) (nodes : List CmdNode) (done : List CmdNode) (k : ℕ)
    → IsNode node
    → All IsNode nodes
    → nodes_of (split_tokens (line_tokens node nodes) done new_node k) ≡ some (done ++ node ∷ nodes)
unfolding line_tokens split_tokens
split_tokens-line node [] done k valid all =
    let (k', e) = split_tokens-node node [] done k valid in
    let same : node_tokens node ++ [] ≡ node_tokens node = simp append-nil in
    ap (λ tokens. nodes_of (split_tokens tokens done new_node k)) (sym same) ∙ ap nodes_of e
split_tokens-line node (next ∷ nodes) done k valid all =
    let rest = (b'|' ∷ []) ∷ line_tokens next nodes in
    let (k', e) = split_tokens-node node rest done k valid in
    ap nodes_of (e ∙ split_tokens-pipe (line_tokens next nodes) done node k')
    ∙ split_tokens-line next nodes (done ++ node ∷ []) (suc k') all.0 all.1
    ∙ ap some (simp append_assoc)

-- A pipeline of nodes, each with at most ten arguments that do not start with `|`, `<` or `>`, and with
-- files for input and output or none, is split into the same nodes again.
pub split_line-line_tokens :
    (node : CmdNode) (nodes : List CmdNode)
    → IsNode node
    → All IsNode nodes
    → nodes_of (split_line (line_tokens node nodes)) ≡ some (node ∷ nodes)
unfolding split_line
split_line-line_tokens node nodes valid all = split_tokens-line node nodes [] 0 valid all
