-- ===== src/Matrix/Laws.antt =====
-- The threads of lab3/2/2_2.c, lab3/3/3_1/3_1.c and lab3/3/3_2/3_2.c: the invariant of their steps.
use ncku_operating_system.Base.{
  ℕ, ◌+◌, ◌*◌, ◌%◌, ◌≡◌, refl, Bool, true, false, ◌&&◌, Bool-cases, inl, inr, List, [], ◌∷◌, Option,
  none, some, arith, ◌==◌, if◌then◌else◌, u32_mod, ap, ◌∙◌, subst, All,
}
use ncku_operating_system.Matrix.{
  Matrix, Update, Pc, at_lock, at_load, at_unlock, at_store, Thread, Shared, set_cell, after_store,
  step_at,
}
use ncku_operating_system.Matrix.Sums.{added}

-- 1 for a thread that has the lock.
abbrev pub holds : Pc → ℕ
holds at_lock = 0
holds at_load = 1
holds at_unlock = 1
holds (at_store value) = 1

-- The threads of a set of rows.
abbrev pub IsIn : (ℕ → Bool) → List Update → Type 0
IsIn rows us = All (λ u. rows u.i ≡ true) us

-- How the threads keep apart: by the lock, or by their rows.
abbrev pub IsApart : (locks : Bool) (P Q : ℕ → Bool) → Shared → Thread → Thread → Type 0
IsApart true P Q s t u = s.lock + (holds t.pc + holds u.pc) ≡ 1
IsApart false P Q s t u = IsIn P t.todo × IsIn Q u.todo

-- A value that has been loaded is still the element's.
abbrev pub IsLoaded : Pc → List Update → Matrix → Type 0
IsLoaded (at_store value) [] z = Unit
IsLoaded (at_store value) (u ∷ us) z = value ≡ z u.i u.j
IsLoaded _ us z = Unit

module _ (x y z₀ : Matrix) (locks : Bool) (us vs : List Update) where
  -- The invariant: each element of `z` and the updates still to be made to it add up to its first value
  -- and all updates.
  pub record IsSumming (P Q : ℕ → Bool) (s : Shared) (t u : Thread) : Type 0 where
    pub apart : IsApart locks P Q s t u
    pub here : IsLoaded t.pc t.todo s.z
    pub there : IsLoaded u.pc u.todo s.z
    pub total :
        (r c : ℕ)
        → (s.z r c + (added x y t.todo r c + added x y u.todo r c)) % u32_mod
          ≡ (z₀ r c + (added x y us r c + added x y vs r c)) % u32_mod

IsApart-sym :
    (locks : Bool) (P Q : ℕ → Bool) (s : Shared) (t u : Thread)
    → IsApart locks P Q s t u
    → IsApart locks Q P s u t
IsApart-sym true P Q s t u a = omega (arith, a)
IsApart-sym false P Q s t u a = (a.1, a.0)

swap_sums : (a b c : ℕ) → (a + (b + c)) % u32_mod ≡ (a + (c + b)) % u32_mod
swap_sums a b c = ap (λ n. n % u32_mod) (omega arith)

module _ (x y z₀ : Matrix) (locks : Bool) where
  pub IsSumming-sym :
      {us vs : List Update} {P Q : ℕ → Bool} {s : Shared} {t u : Thread}
      → IsSumming x y z₀ locks us vs P Q s t u
      → IsSumming x y z₀ locks vs us Q P s u t
  IsSumming-sym {us} {vs} {P} {Q} {s} {t} {u} v = record {
    apart = IsApart-sym locks P Q s t u v.apart;
    here = v.there;
    there = v.here;
    total = λ r c.
        swap_sums (s.z r c) (added x y u.todo r c) (added x y t.todo r c)
        ∙ v.total r c
        ∙ swap_sums (z₀ r c) (added x y us r c) (added x y vs r c);
  }

-- A store to an element leaves the others, and adds to its own.
sum_of_store :
    (z : Matrix) (i j r c p rest : ℕ)
    → (set_cell z i j ((z i j + p) % u32_mod) r c + rest) % u32_mod
      ≡ (z r c + ((if (r == i) && (c == j) then p else 0) + rest)) % u32_mod
unfolding set_cell
sum_of_store z i j r c p rest = elim (Bool-cases ((r == i) && (c == j))) [
  | inl e ↦
      let row : r ≡ i = ground arith in
      let column : c ≡ j = ground arith in rw (e, row, column) (omega arith)
  | inr e ↦ rw e (ap (λ n. n % u32_mod) (omega arith))
]

-- A store does not change an element that the other thread has loaded.
IsLoaded-store :
    (locks : Bool) (P Q : ℕ → Bool)
    → ((r : ℕ) → P r ≡ true → Q r ≡ true → ⊥)
    → (s : Shared) (v : ℕ) (a : Update) (us : List Update) (pc : Pc) (ws : List Update) (value : ℕ)
    → IsApart locks P Q s
        (record { pc = at_store v; todo = a ∷ us })
        (record { pc = pc; todo = ws })
    → IsLoaded pc ws s.z
    → IsLoaded pc ws (set_cell s.z a.i a.j value)
unfolding set_cell
IsLoaded-store locks P Q h s v a us at_lock ws value k l = tt
IsLoaded-store locks P Q h s v a us at_load ws value k l = tt
IsLoaded-store locks P Q h s v a us at_unlock ws value k l = tt
IsLoaded-store locks P Q h s v a us (at_store w) [] value k l = tt
IsLoaded-store true P Q h s v a us (at_store w) (b ∷ ws) value k l = absurd (omega (arith, k))
IsLoaded-store false P Q h s v a us (at_store w) (b ∷ ws) value k l =
    elim (Bool-cases ((b.i == a.i) && (b.j == a.j))) [
      | inl e ↦
          let row : b.i ≡ a.i = ground arith in
          absurd (h a.i k.0.0 (subst (λ r. Q r ≡ true) row k.1.0))
      | inr e ↦ rw e l
    ]

-- The threads stay apart in every step.
module _ (P Q : ℕ → Bool) (s : Shared) (u : Thread) where
  IsApart-lock :
      (locks : Bool) (todo : List Update)
      → (s.lock == 1) ≡ true
      → IsApart locks P Q s (record { pc = at_lock; todo = todo }) u
      → IsApart locks P Q (record s { lock = 0 }) (record { pc = at_load; todo = todo }) u
  IsApart-lock true todo e k = ground (arith, k)
  IsApart-lock false todo e k = k

  IsApart-load :
      (locks : Bool) (todo : List Update) (value : ℕ)
      → IsApart locks P Q s (record { pc = at_load; todo = todo }) u
      → IsApart locks P Q s (record { pc = at_store value; todo = todo }) u
  IsApart-load true todo value k = k
  IsApart-load false todo value k = k

  IsApart-store :
      (locks : Bool) (a : Update) (todo : List Update) (value : ℕ) (z : Matrix)
      → IsApart locks P Q s (record { pc = at_store value; todo = a ∷ todo }) u
      → IsApart locks P Q (record s { z = z }) (record { pc = after_store locks; todo = todo }) u
  IsApart-store true a todo value z k = k
  IsApart-store false a todo value z k = (k.0.1, k.1)

  IsApart-unlock :
      (locks : Bool) (todo : List Update)
      → IsApart locks P Q s (record { pc = at_unlock; todo = todo }) u
      → IsApart locks P Q (record s { lock = 1 }) (record { pc = at_lock; todo = todo }) u
  IsApart-unlock true todo k = omega (arith, k)
  IsApart-unlock false todo k = k

after-IsLoaded :
    (locks : Bool) (todo : List Update) (z : Matrix) → IsLoaded (after_store locks) todo z
after-IsLoaded true todo z = tt
after-IsLoaded false todo z = tt

module _ (x y z₀ : Matrix) (locks : Bool) (us vs : List Update) (P Q : ℕ → Bool)
    (separate : (r : ℕ) → P r ≡ true → Q r ≡ true → ⊥) (u : Thread) where
  abbrev pub Leads : Option (Shared × Thread) → Type 0
  Leads none = Unit
  Leads (some (s', t')) = IsSumming x y z₀ locks us vs P Q s' t' u

  pub step-IsSumming :
      (pc : Pc) (todo : List Update) (s : Shared)
      → IsSumming x y z₀ locks us vs P Q s (record { pc = pc; todo = todo }) u
      → Leads (step_at x y locks pc todo s)
  unfolding step_at
  step-IsSumming at_lock [] s v = tt
  step-IsSumming at_lock (a ∷ todo) s v = elim (Bool-cases (s.lock == 1)) [
    | inl free ↦ rw free (record {
      apart = IsApart-lock P Q s u locks _ free v.apart;
      here = tt;
      there = v.there;
      total = v.total;
    })
    | inr taken ↦ rw taken tt
  ]
  step-IsSumming at_load [] s v = tt
  step-IsSumming at_load (a ∷ todo) s v = record {
    apart = IsApart-load P Q s u locks _ _ v.apart;
    here = refl;
    there = v.there;
    total = v.total;
  }
  step-IsSumming (at_store value) [] s v = tt
  step-IsSumming (at_store value) (a ∷ todo) s v = record {
    apart = IsApart-store P Q s u locks a todo value _ v.apart;
    here = after-IsLoaded locks todo _;
    there = IsLoaded-store locks P Q separate s value a todo u.pc u.todo _ v.apart v.there;
    total = λ r c.
        let p = x a.i a.k * y a.k a.j in
        let rest = added x y todo r c + added x y u.todo r c in
        ap (λ w. (set_cell s.z a.i a.j ((w + p) % u32_mod) r c + rest) % u32_mod) v.here
        ∙ sum_of_store s.z a.i a.j r c p rest
        ∙ ap (λ n. n % u32_mod) (omega arith)
        ∙ v.total r c;
  }
  step-IsSumming at_unlock todo s v = record {
    apart = IsApart-unlock P Q s u locks todo v.apart;
    here = tt;
    there = v.there;
    total = v.total;
  }
