-- ===== src/Shell/Process/Pipe.antt =====
-- lab2/src/shell.c: the descriptors of the shell in one round of the loop of `fork_cmd_node`.
use ncku_operating_system.Base.{
  ℕ, ◌≡◌, ◌⊎◌, Bool, true, false, Bool-cases, inl, inr, none, some, arith, ◌==◌, if◌then◌else◌, ap,
  sym, ◌∙◌,
}
use ncku_operating_system.Shell.Process.{Handle, pipe_read, pipe_write, Table, look, set, close}
use ncku_operating_system.Shell.Process.Laws.{not-sym, set-same, set-at, set-other, differ}

-- The tables of the loop: with the pipe, and what the shell leaves open of it.
module _ (fresh : Table → ℕ) (is_head : Bool) (input k : ℕ) (t : Table) where
  abbrev pub fd0 : ℕ
  fd0 = fresh t

  abbrev pub half : Table
  half = set t fd0 (some (pipe_read k))

  abbrev pub fd1 : ℕ
  fd1 = fresh half

  abbrev pub piped : Table
  piped = set half fd1 (some (pipe_write k))

  abbrev pub left : Table
  left = close (if is_head then piped else close piped input) fd1

  abbrev pub after : Table
  after = if is_head then t else close t input

module _ (fresh : Table → ℕ) (is_fresh : (t : Table) → look t (fresh t) ≡ none) (is_head : Bool)
    (input k : ℕ) (t : Table) (h : Handle) (reads : look t input ≡ some h) where
  apart : (fd0 fresh is_head input k t == fd1 fresh is_head input k t) ≡ false
  apart =
      differ (half fresh is_head input k t) _ _ (set-same t (fresh t) (some (pipe_read k)))
        (is_fresh (half fresh is_head input k t))

  pub fd1-none : look t (fd1 fresh is_head input k t) ≡ none
  fd1-none =
      sym (set-other t (fresh t) _ (some (pipe_read k)) (not-sym _ _ apart))
      ∙ is_fresh (half fresh is_head input k t)

  pub piped-old :
      (n : ℕ) {g : Handle} → look t n ≡ some g → look (piped fresh is_head input k t) n ≡ some g
  piped-old n e =
      set-other (half fresh is_head input k t) _ n _ (differ t n _ e fd1-none)
      ∙ set-other t _ n _ (differ t n _ e (is_fresh t))
      ∙ e

  piped-fd0 : look (piped fresh is_head input k t) (fresh t) ≡ some (pipe_read k)
  piped-fd0 =
      set-other (half fresh is_head input k t) _ _ _ apart
      ∙ set-same t (fresh t) (some (pipe_read k))

  -- What stays open.
  pub left-old :
      (n : ℕ) {g : Handle}
      → look (piped fresh is_head input k t) n ≡ some g
      → (n == fd1 fresh is_head input k t) ≡ false
      → (is_head ≡ true) ⊎ ((n == input) ≡ false)
      → look (left fresh is_head input k t) n ≡ some g
  left-old n e d (inl head) = rw head (set-other _ _ n none d ∙ e)
  left-old n e d (inr other) = elim (Bool-cases is_head) [
    | inl head ↦ rw head (set-other _ _ n none d ∙ e)
    | inr tail ↦ rw tail (set-other _ _ n none d ∙ set-other _ input n none other ∙ e)
  ]

  -- What was not open is not.
  after-none : (n : ℕ) → look t n ≡ none → look (after fresh is_head input k t) n ≡ none
  after-none n e = elim (Bool-cases is_head) [
    | inl head ↦ rw head e
    | inr tail ↦ rw tail (set-other t input n none (not-sym input n (differ t input n reads e)) ∙ e)
  ]

  left-after :
      (n : ℕ)
      → (n == fd0 fresh is_head input k t) ≡ false
      → (n == fd1 fresh is_head input k t) ≡ false
      → look (left fresh is_head input k t) n ≡ look (after fresh is_head input k t) n
  left-after n d d' =
      let same : look (piped fresh is_head input k t) n ≡ look t n =
        set-other (half fresh is_head input k t) _ n _ d' ∙ set-other t _ n _ d in
      elim (Bool-cases is_head) [
        | inl head ↦ rw head (set-other _ _ n none d' ∙ same)
        | inr tail ↦ rw tail (
            set-other _ _ n none d' ∙ elim (Bool-cases (n == input)) [
              | inl here ↦ set-at _ input n none here ∙ sym (set-at t input n none here)
              | inr there ↦
                  set-other _ input n none there ∙ same ∙ sym (set-other t input n none there)
            ])
      ]

  pub all-closed :
      (n : ℕ)
      → look (close (left fresh is_head input k t) (fd0 fresh is_head input k t)) n
        ≡ look (after fresh is_head input k t) n
  all-closed n = elim (Bool-cases (n == fd0 fresh is_head input k t)) [
    | inl here ↦
        let eq : n ≡ fd0 fresh is_head input k t = ground arith in
        ap (look (close (left fresh is_head input k t) (fd0 fresh is_head input k t))) eq
        ∙ set-same _ _ none
        ∙ sym (after-none n (ap (look t) eq ∙ is_fresh t))
    | inr other ↦
        set-other _ _ n none other ∙ elim (Bool-cases (n == fd1 fresh is_head input k t)) [
          | inl here ↦
              let eq : n ≡ fd1 fresh is_head input k t = ground arith in
              ap (look (left fresh is_head input k t)) eq
              ∙ set-same _ _ none
              ∙ sym (after-none n (ap (look t) eq ∙ fd1-none))
          | inr there ↦ left-after n other there
        ]
  ]

  pub left-fd0 : look (left fresh is_head input k t) (fresh t) ≡ some (pipe_read k)
  left-fd0 =
      left-old (fresh t) piped-fd0 apart
        (inr (not-sym _ _ (differ t input (fresh t) reads (is_fresh t))))
