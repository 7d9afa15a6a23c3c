-- ===== src/Osfs/Dir/Names.antt =====
-- lab4/dir.c: names in the entries of a directory, as `strlen` and `strncmp` see them, and the entry that
-- `osfs_add_dir_entry` writes.
use ncku_operating_system.Base.{
  ℕ, zero, suc, ◌+◌, ◌-◌, ◌≤◌, ◌<◌, ◌≡◌, ◌≢◌, refl, inl, inr, true, false, none, some, List, [],
  ◌∷◌, arith, ◌==◌, Bool-cases, length, get_elem?, get_elem?-lt, u32_mod, ==_iff, ap, ◌∙◌, sym, All,
}
use ncku_operating_system.Osfs.Types.{Bytes, inode_no_offset}
use ncku_operating_system.Osfs.Memory.{write_bytes}
use ncku_operating_system.Osfs.Memory.Laws.{
  write_bytes-outside, write_bytes-inside, store32-outside, load32-store32,
}
use ncku_operating_system.Osfs.Dir.{
  strlen, text_limit, strncmp_eq, strncpy_bytes, entry_at, entry_inode_no, entry_matches,
  find_entry, put_entry,
}

-- Two memories agree on the `n` bytes at `a`.
abbrev pub Agree : Bytes → Bytes → ℕ → ℕ → Type 0
Agree m m' a n = (x : ℕ) → a ≤ x → x < a + n → m' x ≡ m x

-- A name without NUL.
abbrev pub IsText : List ℕ → Type 0
IsText name = All (λ c. c ≢ 0) name

strlen-more :
    (m : Bytes) (rounds a : ℕ)
    → (m a == 0) ≡ false
    → strlen (suc rounds) m a ≡ suc (strlen rounds m (suc a))
unfolding strlen
strlen-more m rounds a more = rw more refl

strlen-congr :
    (m m' : Bytes) (rounds a n : ℕ)
    → Agree m m' a n
    → strlen rounds m a < n
    → strlen rounds m' a ≡ strlen rounds m a
unfolding strlen
strlen-congr m m' zero a n same h = refl
strlen-congr m m' (suc rounds) a n same h = elim (Bool-cases (m a == 0)) [
  | inl ends ↦ rw (same a (omega arith) (omega arith), ends) refl
  | inr more ↦
      let left : strlen rounds m (suc a) < n - 1 = omega (arith, strlen-more m rounds a more) in
      rw (same a (omega arith) (omega arith), more)
        (ap suc (
          strlen-congr m m' rounds (suc a) (n - 1) (λ x l u. same x (omega arith) (omega arith))
            left))
]

strncmp_eq-congr :
    (m m' : Bytes) (a : ℕ) (name : List ℕ)
    → Agree m m' a (length name)
    → strncmp_eq m' a name ≡ strncmp_eq m a name
unfolding strncmp_eq
strncmp_eq-congr m m' a [] same = refl
strncmp_eq-congr m m' a (c ∷ name) same =
    rw
      (
        same a (omega arith) (omega arith),
        strncmp_eq-congr m m' (suc a) name (λ x l u. same x (omega arith) (omega arith)),
      )
      refl

-- Where an entry's name ends inside the entry, a test of the entry looks at the entry alone.
pub entry_matches-congr :
    (m m' : Bytes) (base i : ℕ) (name : List ℕ)
    → strlen text_limit m (entry_at base i) < 255
    → Agree m m' (entry_at base i) 255
    → entry_matches m' base i name ≡ entry_matches m base i name
entry_matches-congr m m' base i name ends same =
    let e = strlen-congr m m' text_limit (entry_at base i) 255 same ends in
    elim (Bool-cases (strlen text_limit m (entry_at base i) == length name)) [
      | inl fits ↦
          let l = (==_iff _ _).0 fits in
          rw
            (
              e,
              strncmp_eq-congr m m' (entry_at base i) name
                  (λ x a b. same x a (omega (arith, l, ends))),
            )
            refl
      | inr differs ↦ rw (e, differs) refl
    ]

pub find_entry-congr :
    (m m' : Bytes) (base i rounds : ℕ) (name : List ℕ)
    → ((j : ℕ)
        → i ≤ j
        → j < i + rounds
        → entry_matches m' base j name ≡ entry_matches m base j name)
    → find_entry m' base i rounds name ≡ find_entry m base i rounds name
unfolding find_entry
find_entry-congr m m' base i zero name same = refl
find_entry-congr m m' base i (suc rounds) name same =
    rw
      (
        same i (omega arith) (omega arith),
        find_entry-congr m m' base (suc i) rounds name
            (λ j l h. same j (omega arith) (omega arith)),
      )
      refl

find_entry-here :
    (m : Bytes) (base i rounds : ℕ) (name : List ℕ)
    → entry_matches m base i name ≡ true
    → find_entry m base i (suc rounds) name ≡ some i
unfolding find_entry
find_entry-here m base i rounds name here = rw here refl

find_entry-skip :
    (m : Bytes) (base i rounds : ℕ) (name : List ℕ)
    → entry_matches m base i name ≡ false
    → find_entry m base i (suc rounds) name ≡ find_entry m base (suc i) rounds name
unfolding find_entry
find_entry-skip m base i rounds name other = rw other refl

-- One entry more: it is found if no other is and it matches.
pub find_entry-last :
    (m : Bytes) (base i rounds : ℕ) (name : List ℕ)
    → find_entry m base i rounds name ≡ none
    → entry_matches m base (i + rounds) name ≡ true
    → find_entry m base i (suc rounds) name ≡ some (i + rounds)
find_entry-last m base i zero name none_yet last =
    find_entry-here m base i zero name (ap (λ j. entry_matches m base j name) (omega arith) ∙ last)
    ∙ ap some (omega arith)
find_entry-last m base i (suc rounds) name none_yet last =
    elim (Bool-cases (entry_matches m base i name)) [
      | inl here ↦ absurd (cc (find_entry-here m base i rounds name here, none_yet))
      | inr other ↦
          find_entry-skip m base i (suc rounds) name other
          ∙ find_entry-last m base (suc i) rounds name
              (sym (find_entry-skip m base i rounds name other) ∙ none_yet)
              (ap (λ j. entry_matches m base j name) (omega arith) ∙ last)
          ∙ ap some (omega arith)
    ]

-- `strlen` and `strncmp` of a name that stands at `a` with its NUL.
pub strlen-text :
    (m : Bytes) (rounds a : ℕ) (name : List ℕ)
    → IsText name
    → ((k c : ℕ) → get_elem? name k ≡ some c → m (a + k) ≡ c)
    → m (a + length name) ≡ 0
    → length name < rounds
    → strlen rounds m a ≡ length name
unfolding strlen
strlen-text m zero a name text at ends h = absurd (omega arith)
strlen-text m (suc rounds) a [] text at ends h =
    let stop : (m a == 0) ≡ true = (==_iff _ _).1 (ap m (omega arith) ∙ ends) in rw stop refl
strlen-text m (suc rounds) a (c ∷ name) text at ends h =
    let here : m a ≡ c = ap m (omega arith) ∙ at 0 c refl in
    let more : (m a == 0) ≡ false = ground (arith, here, text.0) in
    strlen-more m rounds a more
    ∙ ap suc (
        strlen-text m rounds (suc a) name text.1 (λ k d e. ap m (omega arith) ∙ at (suc k) d e)
          (ap m (omega arith) ∙ ends) (omega arith))

pub strncmp_eq-text :
    (m : Bytes) (a : ℕ) (name : List ℕ)
    → ((k c : ℕ) → get_elem? name k ≡ some c → m (a + k) ≡ c)
    → strncmp_eq m a name ≡ true
unfolding strncmp_eq
strncmp_eq-text m a [] at = refl
strncmp_eq-text m a (c ∷ name) at =
    let here : (m a == c) ≡ true = (==_iff _ _).1 (ap m (omega arith) ∙ at 0 c refl) in
    let rest = strncmp_eq-text m (suc a) name (λ k d e. ap m (omega arith) ∙ at (suc k) d e) in
    elim (Bool-cases (c == 0)) [ inl ends ↦ rw (here, ends) refl | inr more ↦ rw (here, more) rest ]

strncpy_bytes-text : (name : List ℕ) → IsText name → strncpy_bytes false name ≡ name
unfolding strncpy_bytes
strncpy_bytes-text [] text = refl
strncpy_bytes-text (c ∷ name) text =
    let more : (c == 0) ≡ false = ground (arith, text.0) in
    rw more (ap (λ rest. c ∷ rest) (strncpy_bytes-text name text.1))

module _ (m : Bytes) (base i : ℕ) (name : List ℕ) (ino : ℕ) (text : IsText name)
    (short : length name < 255) where
  -- The bytes in front of the entry are as before.
  pub put_entry-before : (x : ℕ) → x < entry_at base i → put_entry m base i name ino x ≡ m x
  put_entry-before x h =
      store32-outside _ (entry_at base i + inode_no_offset) ino x (inl (omega arith))
      ∙ write_bytes-outside _ (entry_at base i + length name) (0 ∷ []) x (inl (omega arith))
      ∙ write_bytes-outside m (entry_at base i) (strncpy_bytes false name) x (inl h)

  pub name_at :
      (k c : ℕ) → get_elem? name k ≡ some c → put_entry m base i name ino (entry_at base i + k) ≡ c
  name_at k c e =
      let inside : k < length name = get_elem?-lt name k e in
      store32-outside _ (entry_at base i + inode_no_offset) ino (entry_at base i + k)
        (inl (omega arith))
      ∙ write_bytes-outside _ (entry_at base i + length name) (0 ∷ []) (entry_at base i + k)
          (inl (omega arith))
      ∙ write_bytes-inside m (entry_at base i) (strncpy_bytes false name) k
          (ap (λ bs. get_elem? bs k) (strncpy_bytes-text name text) ∙ e)

  pub nul_at : put_entry m base i name ino (entry_at base i + length name) ≡ 0
  nul_at =
      store32-outside _ (entry_at base i + inode_no_offset) ino (entry_at base i + length name)
        (inl (omega arith))
      ∙ ap (write_bytes _ (entry_at base i + length name) (0 ∷ [])) (omega arith)
      ∙ write_bytes-inside _ (entry_at base i + length name) (0 ∷ []) 0 refl

  put_entry-strlen : strlen text_limit (put_entry m base i name ino) (entry_at base i) ≡ length name
  put_entry-strlen =
      strlen-text (put_entry m base i name ino) text_limit (entry_at base i) name text name_at
        nul_at (omega arith)

  pub put_entry-matches : entry_matches (put_entry m base i name ino) base i name ≡ true
  put_entry-matches =
      let fits : (strlen text_limit (put_entry m base i name ino) (entry_at base i) == length name)
          ≡ true =
        (==_iff _ _).1 put_entry-strlen in
      rw (fits, strncmp_eq-text (put_entry m base i name ino) (entry_at base i) name name_at) refl

  pub put_entry-inode_no : ino < u32_mod → entry_inode_no (put_entry m base i name ino) base i ≡ ino
  put_entry-inode_no h = load32-store32 _ (entry_at base i + inode_no_offset) ino h
