-- ===== src/Shell/Process/BuiltIn.antt =====
-- lab2/src/shell.c: the path of a built-in command in `shell`.
use ncku_operating_system.Base.{
  ℕ, ◌≡◌, refl, Bool, false, Bool-cases, inl, inr, Option, none, some, arith, ◌==◌, Text, ap, sym,
  ◌∙◌,
}
use ncku_operating_system.Shell.Command.{CmdNode}
use ncku_operating_system.Shell.Process.{
  Handle, file_read, file_write, asked, Table, set, look, opens_in, opens_out, Ends, ends,
  redirection, spawn_proc, back, recover, run_built_in,
}
use ncku_operating_system.Shell.Process.Laws.{
  IsPlaced, not-sym, set-same, set-at, set-other, differ, dup2-IsPlaced, wired, both,
  spawn_proc-wired, Elsewhere, redirection-Elsewhere,
}

back-IsPlaced :
    (target : ℕ) (file : Option Text) (copy : ℕ) (t : Table) (old : Handle)
    → (file ≡ none → look t target ≡ some old)
    → look t copy ≡ some old
    → IsPlaced target (some old) t (back target file copy t)
back-IsPlaced target none copy t old h e = record { placed = h refl; others = λ n d. refl }
back-IsPlaced target (some f) copy t old h e = dup2-IsPlaced t copy target old e

-- The shell's own ends, where nothing is asked for.
own_in :
    (a b : Option (Option Handle)) (i o : Handle) (x y : Option Handle)
    → ◌≡◌ {A = Ends} (some (x, y)) (both (wired a i) (wired b o))
    → (a ≡ none → x ≡ some i) × (b ≡ none → y ≡ some o)
own_in none none i o x y e = (λ d. cc e, λ d. cc e)
own_in none (some none) i o x y e = absurd (cc e)
own_in none (some (some h)) i o x y e = (λ d. cc e, λ d. absurd (cc d))
own_in (some none) b i o x y e = absurd (cc e)
own_in (some (some h)) none i o x y e = (λ d. absurd (cc d), λ d. cc e)
own_in (some (some h)) (some none) i o x y e = absurd (cc e)
own_in (some (some h)) (some (some h')) i o x y e = (λ d. absurd (cc d), λ d. absurd (cc d))

-- The shell's table with the copies of its standard input and output.
module _ (fresh : Table → ℕ) (t : Table) where
  abbrev in_copy : ℕ
  in_copy = fresh t

  abbrev once : Table
  once = set t in_copy (look t 0)

  abbrev out_copy : ℕ
  out_copy = fresh once

  abbrev twice : Table
  twice = set once out_copy (look once 1)

module _ (fresh : Table → ℕ) (is_fresh : (t : Table) → look t (fresh t) ≡ none) (t : Table)
    (i o : Handle) (stdin : look t 0 ≡ some i) (stdout : look t 1 ≡ some o) where
  once-old : (n : ℕ) (h : Handle) → look t n ≡ some h → look (once fresh t) n ≡ some h
  once-old n h e = set-other t (fresh t) n (look t 0) (differ t n (fresh t) e (is_fresh t)) ∙ e

  out_copy-none : look t (out_copy fresh t) ≡ none
  out_copy-none = elim (Bool-cases (out_copy fresh t == fresh t)) [
    | inl same ↦
        let here = set-at t (fresh t) (out_copy fresh t) (look t 0) same in
        absurd (cc (here, stdin, is_fresh (once fresh t)))
    | inr other ↦
        sym (set-other t (fresh t) (out_copy fresh t) (look t 0) other) ∙ is_fresh (once fresh t)
  ]

  twice-old :
      (n : ℕ) (h : Handle) → look (once fresh t) n ≡ some h → look (twice fresh t) n ≡ some h
  twice-old n h e =
      set-other (once fresh t) _ n _
        (differ (once fresh t) n (out_copy fresh t) e (is_fresh (once fresh t)))
      ∙ e

  twice-in_copy : look (twice fresh t) (in_copy fresh t) ≡ some i
  twice-in_copy = twice-old (fresh t) i (set-same t (fresh t) (look t 0) ∙ stdin)

  twice-out_copy : look (twice fresh t) (out_copy fresh t) ≡ some o
  twice-out_copy = set-same (once fresh t) _ (look (once fresh t) 1) ∙ once-old 1 o stdout

  back_at :
      (p : CmdNode) (running : Table)
      → ((n : ℕ) → (n == 0) ≡ false → (n == 1) ≡ false → look running n ≡ look (twice fresh t) n)
      → (n : ℕ) → (n == out_copy fresh t) ≡ false
      → (n == in_copy fresh t) ≡ false
      → (first : Table) → IsPlaced 0 (some i) running first
      → {second : Table} → IsPlaced 1 (some o) first second
      → look second n ≡ look t n
  back_at p running old n d d' first v {second} w = elim (Bool-cases (n == 1)) [
    | inl here ↦
        let eq : n ≡ 1 = ground arith in
        ap (look second) eq ∙ w.placed ∙ sym (ap (look t) eq ∙ stdout)
    | inr other ↦ w.others n other ∙ elim (Bool-cases (n == 0)) [
      | inl here ↦
          let eq : n ≡ 0 = ground arith in
          ap (look first) eq ∙ v.placed ∙ sym (ap (look t) eq ∙ stdin)
      | inr there ↦
          v.others n there
          ∙ old n there other
          ∙ set-other (once fresh t) _ n _ d
          ∙ set-other t _ n _ d'
    ]
  ]

  -- Behind the recovery, from any table that has the copies in their places.
  recover-all :
      (p : CmdNode) (running : Table)
      → ((n : ℕ) → (n == 0) ≡ false → (n == 1) ≡ false → look running n ≡ look (twice fresh t) n)
      → (p.in_file ≡ none → look running 0 ≡ some i)
      → (p.out_file ≡ none → look running 1 ≡ some o)
      → (n : ℕ) → look (recover p (in_copy fresh t) (out_copy fresh t) running) n ≡ look t n
  unfolding recover
  recover-all p running old h k n =
      let ic = in_copy fresh t in
      let oc = out_copy fresh t in
      let ic_0 : (ic == 0) ≡ false = not-sym 0 ic (differ t 0 ic stdin (is_fresh t)) in
      let ic_1 : (ic == 1) ≡ false = not-sym 1 ic (differ t 1 ic stdout (is_fresh t)) in
      let oc_0 : (oc == 0) ≡ false = not-sym 0 oc (differ t 0 oc stdin out_copy-none) in
      let oc_1 : (oc == 1) ≡ false = not-sym 1 oc (differ t 1 oc stdout out_copy-none) in
      let first = back 0 p.in_file ic running in
      let v : IsPlaced 0 (some i) running first =
        back-IsPlaced 0 p.in_file ic running i h (old ic ic_0 ic_1 ∙ twice-in_copy) in
      let w : IsPlaced 1 (some o) first (back 1 p.out_file oc first) =
        back-IsPlaced 1 p.out_file oc first o (λ e. v.others 1 refl ∙ k e)
          (v.others oc oc_0 ∙ old oc oc_0 oc_1 ∙ twice-out_copy) in
      elim (Bool-cases (n == oc)) [
        | inl here ↦
            let eq : n ≡ oc = ground arith in
            set-at _ oc n none here ∙ sym (ap (look t) eq ∙ out_copy-none)
        | inr d ↦ set-other _ oc n none d ∙ elim (Bool-cases (n == ic)) [
          | inl here ↦
              let eq : n ≡ ic = ground arith in
              set-at _ ic n none here ∙ sym (ap (look t) eq ∙ is_fresh t)
          | inr d' ↦ set-other _ ic n none d' ∙ back_at p running old n d d' first v w
        ]
      ]

module _ (fresh : Table → ℕ) (is_fresh : (t : Table) → look t (fresh t) ≡ none)
    (may_read may_write : Text → Bool) where
  -- What the path of a built-in command leaves: it runs with the ends that it asks for, and then the shell has
  -- the descriptors that it had before; or the shell exits because a file cannot be opened.
  abbrev pub Restores : CmdNode → Table → (i o : Handle) → Option (Table × Table) → Type 0
  Restores p t i o none =
      both (wired (opens_in fresh may_read may_write p) i)
        (wired (opens_out fresh may_read may_write p) o)
      ≡ none
  Restores p t i o (some (running, left)) =
      (some (look running 0, look running 1)
        ≡ both (wired (opens_in fresh may_read may_write p) i)
            (wired (opens_out fresh may_read may_write p) o))
      × ((n : ℕ) → look left n ≡ look t n)

  restored :
      (p : CmdNode) (t : Table) (i o : Handle) (r : Option Table)
      → look t 0 ≡ some i
      → look t 1 ≡ some o
      → ends r
        ≡ both
            (wired (opens_in fresh may_read may_write p) i)
            (wired (opens_out fresh may_read may_write p) o)
      → Elsewhere (twice fresh t) r
      → Restores p t i o (elim r [
        | none ↦ none
        | some running ↦ some (running, recover p (in_copy fresh t) (out_copy fresh t) running)
      ])
  restored p t i o none stdin stdout e w = sym e
  restored p t i o (some running) stdin stdout e w =
      let own = own_in _ _ i o (look running 0) (look running 1) e in
      (
        e,
        recover-all fresh is_fresh t i o stdin stdout p running w
            (λ d. own.0 (ap (asked may_read file_read) d))
            (λ d. own.1 (ap (asked may_write file_write) d)),
      )

  -- For every node and every table with a standard input and output, if `fresh` gives a descriptor that is not
  -- open: a built-in command runs with the files that are asked for, or the shell's own ends, and then the
  -- shell has the descriptors that it had before; or a file cannot be opened and the shell itself exits.
  pub run_built_in-Restores :
      (p : CmdNode) (t : Table) (i o : Handle)
      → look t 0 ≡ some i
      → look t 1 ≡ some o
      → Restores p t i o (run_built_in fresh may_read may_write p t)
  unfolding run_built_in spawn_proc
  run_built_in-Restores p t i o stdin stdout =
      let both_0 =
        twice-old fresh is_fresh t i o stdin stdout 0 i
          (once-old fresh is_fresh t i o stdin stdout 0 i stdin) in
      let both_1 =
        twice-old fresh is_fresh t i o stdin stdout 1 o
          (once-old fresh is_fresh t i o stdin stdout 1 o stdout) in
      restored p t i o (redirection fresh may_read may_write p 0 1 (twice fresh t)) stdin stdout
        (spawn_proc-wired fresh is_fresh may_read may_write p (twice fresh t) 1 i o o both_0 both_1
          both_1 refl 0 i both_0)
        (redirection-Elsewhere fresh is_fresh may_read may_write p (twice fresh t) 1 i o o both_0
          both_1 both_1 refl 0 i both_0)
