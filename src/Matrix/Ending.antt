-- ===== src/Matrix/Ending.antt =====
-- lab3/1/1_1, lab3/2 and lab3/3: the elements when two threads with updates have ended.
use ncku_operating_system.Base.{
  ℕ, ◌+◌, ◌%◌, ◌≡◌, refl, Bool, true, false, List, [], some, arith, u32_mod, ap, ◌∙◌, subst,
}
use ncku_operating_system.Matrix.{
  Matrix, Update, Thread, Shared, next_round, step_at, Runs, created, first_steps, second_steps,
}
use ncku_operating_system.Matrix.Sums.{added}
use ncku_operating_system.Matrix.Laws.{
  IsApart, IsLoaded, IsSumming, IsSumming-sym, Leads, step-IsSumming,
}

start-IsLoaded :
    (locks : Bool) (todo : List Update) (z : Matrix) → IsLoaded (next_round locks) todo z
start-IsLoaded true todo z = tt
start-IsLoaded false todo z = tt

module _ (x y z₀ : Matrix) (locks : Bool) (us vs : List Update) (P Q : ℕ → Bool)
    (separate : (r : ℕ) → P r ≡ true → Q r ≡ true → ⊥) where
  abbrev Start : Type 0
  Start =
      IsApart locks P Q (record { lock = 1; z = z₀ }) (record { pc = next_round locks; todo = us })
        (record { pc = next_round locks; todo = vs })

  Runs-IsSumming :
      {s : Shared} {t u : Thread}
      → Start
      → Runs x y locks z₀ us vs s t u
      → IsSumming x y z₀ locks us vs P Q s t u
  Runs-IsSumming k created = record {
    apart = k;
    here = start-IsLoaded locks us z₀;
    there = start-IsLoaded locks vs z₀;
    total = λ r c. refl;
  }
  Runs-IsSumming k (first_steps {s} {s'} {t} {t'} {u} run e) =
      subst (Leads x y z₀ locks us vs P Q separate u) e
        (step-IsSumming x y z₀ locks us vs P Q separate u t.pc t.todo s (Runs-IsSumming k run))
  Runs-IsSumming k (second_steps {s} {s'} {t} {u} {u'} run e) =
      IsSumming-sym x y z₀ locks
        (step-second t u s e (IsSumming-sym x y z₀ locks (Runs-IsSumming k run)))
    where
      step-second :
          (t u : Thread) (s : Shared) {s' : Shared} {u' : Thread}
          → step_at x y locks u.pc u.todo s ≡ some (s', u')
          → IsSumming x y z₀ locks vs us Q P s u t
          → IsSumming x y z₀ locks vs us Q P s' u' t
      step-second t u s e v =
          subst (Leads x y z₀ locks vs us Q P (λ r q p. separate r p q) t) e
            (step-IsSumming x y z₀ locks vs us Q P (λ r q p. separate r p q) t u.pc u.todo s v)

  -- When both threads have ended, each element has its first value and all updates.
  pub sum_at_end :
      {s : Shared} {t u : Thread}
      → Start
      → Runs x y locks z₀ us vs s t u
      → t.todo ≡ []
      → u.todo ≡ []
      → (r c : ℕ) → s.z r c % u32_mod ≡ (z₀ r c + (added x y us r c + added x y vs r c)) % u32_mod
  sum_at_end {s} {t} {u} k run e f r c =
      let v = Runs-IsSumming k run in
      let none_left : added x y t.todo r c + added x y u.todo r c ≡ 0 =
        omega (arith, ap (λ ws. added x y ws r c) e, ap (λ ws. added x y ws r c) f) in
      ap (λ n. n % u32_mod) (omega (arith, none_left)) ∙ v.total r c
