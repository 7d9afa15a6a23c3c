-- ===== src/Matrix/Product.antt =====
-- lab3/2/2_1.c, lab3/2/2_2.c, lab3/3/3_1/3_1.c and lab3/3/3_2/3_2.c: what `z` holds when the threads have
-- ended.
use ncku_operating_system.Base.{
  ℕ, zero, suc, ◌+◌, ◌-◌, ◌/◌, ◌%◌, ◌≤◌, ◌<◌, ◌≡◌, refl, Bool, true, false, [], arith, ltb, leb,
  u32_mod, ap, sym, ◌∙◌, All-append,
}
use ncku_operating_system.Matrix.{
  Matrix, k_loop, j_loop, i_loop, inner_thread1, inner_thread2, rows_thread1, rows_thread2, Thread,
  Shared, Runs, printed,
}
use ncku_operating_system.Matrix.Sums.{added, dot, dot-split, added-i_loop, inside, res_loop-dot}
use ncku_operating_system.Matrix.Laws.{IsIn}
use ncku_operating_system.Matrix.Ending.{sum_at_end}

module _ (P : ℕ → Bool) where
  k_loop-IsIn : (i j k n : ℕ) → P i ≡ true → IsIn P (k_loop i j k n)
  unfolding k_loop
  k_loop-IsIn i j k zero e = tt
  k_loop-IsIn i j k (suc n) e = (e, k_loop-IsIn i j (suc k) n e)

  j_loop-IsIn : (i j n k m : ℕ) → P i ≡ true → IsIn P (j_loop i j n k m)
  unfolding j_loop
  j_loop-IsIn i j zero k m e = tt
  j_loop-IsIn i j (suc n) k m e =
      All-append _ (k_loop i j k m) (j_loop i (suc j) n k m) (k_loop-IsIn i j k m e)
        (j_loop-IsIn i (suc j) n k m e)

  i_loop-IsIn :
      (i rows cols k m : ℕ)
      → ((r : ℕ) → i ≤ r → r < i + rows → P r ≡ true)
      → IsIn P (i_loop i rows cols k m)
  unfolding i_loop
  i_loop-IsIn i zero cols k m h = tt
  i_loop-IsIn i (suc rows) cols k m h =
      All-append _ (j_loop i 0 cols k m) (i_loop (suc i) rows cols k m)
        (j_loop-IsIn i 0 cols k m (h i (omega arith) (omega arith)))
        (i_loop-IsIn (suc i) rows cols k m (λ r l l'. h r (omega (arith, l)) (omega (arith, l'))))

module _ (x y z₀ : Matrix) (rows cols inner : ℕ) where
  inner-added :
      (r c : ℕ)
      → r < rows
      → c < cols
      → added x y (inner_thread1 rows cols inner) r c
          + added x y (inner_thread2 rows cols inner) r c
        ≡ dot x y r c 0 inner
  unfolding inner_thread1 inner_thread2
  inner-added r c h l =
      let here : inside r c 0 rows cols ≡ true = ground (arith, h, l) in
      let first = added-i_loop x y r c 0 rows cols 0 (inner / 2) in
      let second = added-i_loop x y r c 0 rows cols (inner / 2) (inner - inner / 2) in
      let halves : inner ≡ inner / 2 + (inner - inner / 2) = omega arith in
      let from : 0 + inner / 2 ≡ inner / 2 = omega arith in
      rw (first, second, here)
        (sym (
          ap (λ n. dot x y r c 0 n) halves
          ∙ dot-split x y r c 0 (inner / 2) (inner - inner / 2)
          ∙ ap (λ l. dot x y r c 0 (inner / 2) + dot x y r c l (inner - inner / 2)) from))

  rows-added :
      (r c : ℕ)
      → r < rows
      → c < cols
      → added x y (rows_thread1 rows cols inner) r c + added x y (rows_thread2 rows cols inner) r c
        ≡ dot x y r c 0 inner
  unfolding rows_thread1 rows_thread2
  rows-added r c h l = ground (
    arith,
    h,
    l,
    added-i_loop x y r c 0 (rows / 2) cols 0 inner,
    added-i_loop x y r c (rows / 2) (rows - rows / 2) cols 0 inner,
  )

  -- Two threads that share the inner loop and lock every update (2_2.c), for all sizes, all contents of the
  -- memory of `z` and every order of the steps: when both have ended, each element of `z` is its first
  -- value plus the scalar product of its row and column, modulo 2 ^ 32.
  pub inner_product :
      {s : Shared} {t u : Thread}
      → Runs x y true z₀ (inner_thread1 rows cols inner) (inner_thread2 rows cols inner) s t u
      → t.todo ≡ []
      → u.todo ≡ []
      → (r c : ℕ) → r < rows
      → c < cols
      → s.z r c % u32_mod ≡ (z₀ r c + dot x y r c 0 inner) % u32_mod
  inner_product run e f r c h l =
      sum_at_end x y z₀ true _ _ (λ n. true) (λ n. false) (λ n p q. absurd (cc q)) refl run e f r c
      ∙ ap (λ n. (z₀ r c + n) % u32_mod) (inner-added r c h l)

  -- Two threads that share the rows and do not lock (3_1.c and 3_2.c), for all sizes, all contents of the
  -- memory of `z` and every order of the loads and stores: when both have ended, each element of `z` is its
  -- first value plus the scalar product of its row and column, modulo 2 ^ 32.
  pub rows_product :
      {s : Shared} {t u : Thread}
      → Runs x y false z₀ (rows_thread1 rows cols inner) (rows_thread2 rows cols inner) s t u
      → t.todo ≡ []
      → u.todo ≡ []
      → (r c : ℕ) → r < rows
      → c < cols
      → s.z r c % u32_mod ≡ (z₀ r c + dot x y r c 0 inner) % u32_mod
  unfolding rows_thread1 rows_thread2
  rows_product run e f r c h l =
      sum_at_end x y z₀ false _ _ (λ n. ltb n (rows / 2)) (λ n. leb (rows / 2) n)
        (λ n p q. ground arith)
        (
          i_loop-IsIn (λ n. ltb n (rows / 2)) 0 (rows / 2) cols 0 inner (λ n g k. ground arith),
          i_loop-IsIn (λ n. leb (rows / 2) n) (rows / 2) (rows - rows / 2) cols 0 inner
              (λ n g k. ground arith),
        )
        run e f r c
      ∙ ap (λ n. (z₀ r c + n) % u32_mod) (rows-added r c h l)

-- If the memory of `z` is zero at the start, the elements that 2_2.c and 3_1.c have in `z` when their threads
-- have ended are those that 2_1.c prints, whatever the order of the steps.
pub programs_agree :
    (x y z₀ : Matrix) (rows cols inner : ℕ) {s s' : Shared} {t u t' u' : Thread}
    → ((r c : ℕ) → z₀ r c ≡ 0)
    → Runs x y true z₀ (inner_thread1 rows cols inner) (inner_thread2 rows cols inner) s t u
    → Runs x y false z₀ (rows_thread1 rows cols inner) (rows_thread2 rows cols inner) s' t' u'
    → (t.todo ≡ []) × (u.todo ≡ []) × (t'.todo ≡ []) × (u'.todo ≡ [])
    → (r c : ℕ) → r < rows
    → c < cols
    → (s.z r c % u32_mod ≡ printed x y inner r c) × (s'.z r c % u32_mod ≡ printed x y inner r c)
unfolding printed
programs_agree x y z₀ rows cols inner zeroed run run' ended r c h l =
    let sum : (z₀ r c + dot x y r c 0 inner) % u32_mod ≡ printed x y inner r c =
      ap (λ n. (n + dot x y r c 0 inner) % u32_mod) (zeroed r c)
      ∙ sym (res_loop-dot x y r c 0 inner 0) in
    (
      inner_product x y z₀ rows cols inner run ended.0 ended.1 r c h l ∙ sum,
      rows_product x y z₀ rows cols inner run' ended.2 ended.3 r c h l ∙ sum,
    )
