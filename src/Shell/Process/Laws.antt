-- ===== src/Shell/Process/Laws.antt =====
-- lab2/src/shell.c: redirection puts what is asked for in the place of the standard input and output, and
-- nothing else; behind a built-in command the shell has its own again.
use ncku_operating_system.Base.{
  ℕ, suc, ◌≡◌, refl, Bool, true, false, Bool-cases, inl, inr, Option, none, some, arith, ◌+◌, ltb,
  ◌==◌, Text, ap, sym, ◌∙◌,
}
use ncku_operating_system.Shell.Command.{CmdNode}
use ncku_operating_system.Shell.Process.{
  Handle, Table, set, close, dup2, look, redirect, opens_in, opens_out, and_out, redirection, Ends,
  ends, spawn_proc,
}

-- `t'` is `t` with `h` in the place `target`.
pub record IsPlaced (target : ℕ) (h : Option Handle) (t t' : Table) : Type 0 where
  pub placed : look t' target ≡ h
  pub others : (n : ℕ) → (n == target) ≡ false → look t' n ≡ look t n

pub set-same : (t : Table) (fd : ℕ) (h : Option Handle) → look (set t fd h) fd ≡ h
unfolding set look
set-same t fd h =
    let same : (fd == fd) ≡ true = ground arith in
    let inside : ltb fd (suc (t.limit + fd)) ≡ true = ground arith in rw (inside, same) refl

pub set-other :
    (t : Table) (fd n : ℕ) (h : Option Handle) → (n == fd) ≡ false → look (set t fd h) n ≡ look t n
unfolding set look
set-other t fd n h e = elim (Bool-cases (ltb n t.limit)) [
  | inl i ↦
      let inside : ltb n (suc (t.limit + fd)) ≡ true = ground (arith, i) in rw (inside, e) refl
  | inr o ↦ elim (Bool-cases (ltb n (suc (t.limit + fd)))) [
    | inl i ↦ rw (i, e) refl
    | inr j ↦ rw (j, o) refl
  ]
]

pub set-at : (t : Table) (fd n : ℕ) (h : Option Handle) → (n == fd) ≡ true → look (set t fd h) n ≡ h
unfolding set look
set-at t fd n h e =
    let inside : ltb n (suc (t.limit + fd)) ≡ true = ground (arith, e) in rw (inside, e) refl

pub not-sym : (a b : ℕ) → (a == b) ≡ false → (b == a) ≡ false
not-sym a b e = ground (arith, e)

-- Two descriptors of which one is open and the other is not.
pub differ :
    (t : Table) (a b : ℕ) {h : Handle} → look t a ≡ some h → look t b ≡ none → (a == b) ≡ false
differ t a b e f = elim (Bool-cases (a == b)) [
  | inl same ↦ let eq : a ≡ b = ground arith in absurd (cc (e, f, eq))
  | inr other ↦ other
]

pub dup2-IsPlaced :
    (t : Table) (from to : ℕ) (h : Handle)
    → look t from ≡ some h
    → IsPlaced to (some h) t (dup2 t from to)
unfolding dup2
dup2-IsPlaced t from to h e =
    rw (e, dup2)
      (record { placed = set-same t to (some h); others = λ n d. set-other t to n (some h) d })

module _ (fresh : Table → ℕ) (is_fresh : (t : Table) → look t (fresh t) ≡ none) where
  -- A file in the place of an open descriptor.
  file-IsPlaced :
      (t : Table) (target : ℕ) (h h' : Handle)
      → look t target ≡ some h'
      → IsPlaced target
          (some h)
          t
          (close (dup2 (set t (fresh t) (some h)) (fresh t) target) (fresh t))
  file-IsPlaced t target h h' taken =
      let fd = fresh t in
      let v = dup2-IsPlaced (set t fd (some h)) fd target h (set-same t fd (some h)) in
      let apart = differ t target fd taken (is_fresh t) in
      record {
        placed = set-other (dup2 (set t fd (some h)) fd target) fd target none apart ∙ v.placed;
        others = λ n d. elim (Bool-cases (n == fd)) [
          | inl same ↦
              let eq : n ≡ fd = ground arith in
              ap (look (close (dup2 (set t fd (some h)) fd target) fd)) eq
              ∙ set-same _ fd none
              ∙ sym (is_fresh t)
              ∙ ap (look t) (sym eq)
          | inr other ↦ set-other _ fd n none other ∙ v.others n d ∙ set-other t fd n (some h) other
        ];
      }

  -- What one half of `redirection` puts in the place, or that it fails.
  abbrev pub Redirects :
      (target : ℕ) → Option (Option Handle) → Option Handle → Table → Option Table → Type 0
  Redirects target (some none) old t r = r ≡ none
  Redirects target asked old t none = ⊥
  Redirects target none old t (some t') = IsPlaced target old t t'
  Redirects target (some (some h)) old t (some t') = IsPlaced target (some h) t t'

  pub redirect-Redirects :
      (target : ℕ) (asked : Option (Option Handle)) (source : ℕ) (t : Table) (h h' : Handle)
      → look t target ≡ some h
      → look t source ≡ some h'
      → Redirects target asked (some h') t (redirect fresh target asked source t)
  unfolding redirect
  redirect-Redirects target (some none) source t h h' e f = refl
  redirect-Redirects target (some (some k)) source t h h' e f = file-IsPlaced t target k h e
  redirect-Redirects target none source t h h' e f = elim (Bool-cases (source == target)) [
    | inl same ↦
        let eq : source ≡ target = ground arith in
        rw same (record { placed = ap (look t) (sym eq) ∙ f; others = λ n d. refl })
    | inr other ↦ rw other (dup2-IsPlaced t source target h' f)
  ]

-- What is asked for in a place, or the old one; `none` if a file cannot be opened.
abbrev pub wired : Option (Option Handle) → Handle → Option (Option Handle)
wired none old = some (some old)
wired (some none) old = none
wired (some (some h)) old = some (some h)

abbrev pub both : Option (Option Handle) → Option (Option Handle) → Ends
both none b = none
both (some a) none = none
both (some a) (some b) = some (a, b)

both-eq :
    {a a' b b' : Option Handle} → a ≡ a' → b ≡ b' → ◌≡◌ {A = Ends} (some (a, b)) (some (a', b'))
both-eq e f = rw (e, f) refl

module _ (fresh : Table → ℕ) (is_fresh : (t : Table) → look t (fresh t) ≡ none)
    (may_read may_write : Text → Bool) (p : CmdNode) (t : Table) (output : ℕ) (i o g : Handle)
    (stdin : look t 0 ≡ some i) (stdout : look t 1 ≡ some o) (writes : look t output ≡ some g)
    (not_in : (output == 0) ≡ false) where
  second_half :
      (t' : Table) (k : Handle) (b : Option (Option Handle)) (r : Option Table)
      → IsPlaced 0 (some k) t t'
      → Redirects fresh is_fresh 1 b (some g) t' r
      → ends r ≡ both (some (some k)) (wired b g)
  second_half t' k none none v w = absurd w
  second_half t' k none (some t'') v w = both-eq (w.others 0 refl ∙ v.placed) w.placed
  second_half t' k (some none) r v w = rw w refl
  second_half t' k (some (some h)) none v w = absurd w
  second_half t' k (some (some h)) (some t'') v w = both-eq (w.others 0 refl ∙ v.placed) w.placed

  placed_half :
      (t' : Table) (k : Handle)
      → IsPlaced 0 (some k) t t'
      → ends (redirect fresh 1 (opens_out fresh may_read may_write p) output t')
        ≡ both (some (some k)) (wired (opens_out fresh may_read may_write p) g)
  placed_half t' k v = second_half t' k (opens_out fresh may_read may_write p) _ v (
      redirect-Redirects fresh is_fresh 1 (opens_out fresh may_read may_write p) output t' o g
        (v.others 1 refl ∙ stdout) (v.others output not_in ∙ writes))

  first_half :
      (a : Option (Option Handle)) (h : Handle) (r : Option Table)
      → Redirects fresh is_fresh 0 a (some h) t r
      → ends (and_out fresh may_read may_write p output r)
        ≡ both (wired a h) (wired (opens_out fresh may_read may_write p) g)
  first_half (some none) h r v = rw v refl
  first_half none h none v = absurd v
  first_half (some (some k)) h none v = absurd v
  first_half none h (some t') v = placed_half t' h v
  first_half (some (some k)) h (some t') v = placed_half t' k v

  -- A child has what `redirection` asks for, or the descriptors of its node.
  pub spawn_proc-wired :
      (input : ℕ) (h : Handle)
      → look t input ≡ some h
      → spawn_proc fresh may_read may_write p input output t
        ≡ both
            (wired (opens_in fresh may_read may_write p) h)
            (wired (opens_out fresh may_read may_write p) g)
  unfolding spawn_proc redirection
  spawn_proc-wired input h reads = first_half (opens_in fresh may_read may_write p) h _ (
      redirect-Redirects fresh is_fresh 0 (opens_in fresh may_read may_write p) input t i h stdin
        reads)

-- The other descriptors stay.
abbrev pub Elsewhere : Table → Option Table → Type 0
Elsewhere t none = Unit
Elsewhere t (some t') = (n : ℕ) → (n == 0) ≡ false → (n == 1) ≡ false → look t' n ≡ look t n

module _ (fresh : Table → ℕ) (is_fresh : (t : Table) → look t (fresh t) ≡ none)
    (may_read may_write : Text → Bool) (p : CmdNode) (t : Table) (output : ℕ) (i o g : Handle)
    (stdin : look t 0 ≡ some i) (stdout : look t 1 ≡ some o) (writes : look t output ≡ some g)
    (not_in : (output == 0) ≡ false) where
  one_place :
      (target : ℕ) (a : Option (Option Handle)) (h : Handle) (s t' : Table)
      → Redirects fresh is_fresh target a (some h) s (some t')
      → (n : ℕ) → (n == target) ≡ false
      → look t' n ≡ look s n
  one_place target none h s t' v n d = v.others n d
  one_place target (some (some k)) h s t' v n d = v.others n d
  one_place target (some none) h s t' v n d = absurd (cc)

  then_out :
      (t' : Table)
      → ((n : ℕ) → (n == 0) ≡ false → look t' n ≡ look t n)
      → (r : Option Table)
      → Redirects fresh is_fresh 1 (opens_out fresh may_read may_write p) (some g) t' r
      → Elsewhere t r
  then_out t' old none v = tt
  then_out t' old (some t'') v = λ n d d'. one_place 1 _ g t' t'' v n d' ∙ old n d

  and_out-Elsewhere :
      (a : Option (Option Handle)) (h : Handle) (r : Option Table)
      → Redirects fresh is_fresh 0 a (some h) t r
      → Elsewhere t (and_out fresh may_read may_write p output r)
  and_out-Elsewhere a h none v = tt
  and_out-Elsewhere a h (some t') v =
      let old = one_place 0 a h t t' v in
      then_out t' old _ (
        redirect-Redirects fresh is_fresh 1 (opens_out fresh may_read may_write p) output t' o g
          (old 1 refl ∙ stdout) (old output not_in ∙ writes))

  pub redirection-Elsewhere :
      (input : ℕ) (h : Handle)
      → look t input ≡ some h
      → Elsewhere t (redirection fresh may_read may_write p input output t)
  unfolding redirection
  redirection-Elsewhere input h reads =
      and_out-Elsewhere (opens_in fresh may_read may_write p) h _ (
        redirect-Redirects fresh is_fresh 0 (opens_in fresh may_read may_write p) input t i h stdin
          reads)
