-- ===== src/Matrix/Examples.antt =====
-- The matrix threads of lab3/2 and lab3/3 on small matrices: two rows, one column, two products.
use ncku_operating_system.Base.{◌+◌, ◌%◌, ◌≡◌, refl, true, false, [], ◌*◌, u32_mod, arith}
use ncku_operating_system.Matrix.{
  Matrix, k_loop, j_loop, i_loop, inner_thread1, inner_thread2, rows_thread1, rows_thread2, at_lock,
  at_load, Shared, set_cell, step_at, Runs, created, first_steps, second_steps, printed,
}
use ncku_operating_system.Matrix.Counter.{counting, Counts, counter_at_end}
use ncku_operating_system.Matrix.Sums.{dot}
use ncku_operating_system.Matrix.Product.{inner_product, rows_product, programs_agree}

abbrev x : Matrix
x r k = r + k

abbrev y : Matrix
y k c = k + 1

abbrev zeros : Matrix
zeros r c = 0

abbrev inner_end : Shared
inner_end = record {
  lock = 1;
  z = set_cell (set_cell (set_cell (set_cell zeros 0 0 0) 0 0 2) 1 0 1) 1 0 5;
}

abbrev rows_end : Shared
rows_end = record {
  lock = 1;
  z = set_cell (set_cell (set_cell (set_cell zeros 0 0 0) 1 0 1) 0 0 2) 1 0 5;
}

inner_run :
    Runs x y true zeros
      (inner_thread1 2 1 2)
      (inner_thread2 2 1 2)
      inner_end
      (record { pc = at_lock; todo = [] })
      (record { pc = at_lock; todo = [] })
unfolding inner_thread1 inner_thread2 i_loop j_loop k_loop step_at set_cell
inner_run =
    second_steps
      (second_steps
        (second_steps
          (second_steps
            (first_steps
              (first_steps
                (first_steps
                  (first_steps
                    (second_steps
                      (second_steps
                        (second_steps
                          (second_steps
                            (first_steps
                              (first_steps (first_steps (first_steps created refl) refl) refl) refl)
                            refl)
                          refl)
                        refl)
                      refl)
                    refl)
                  refl)
                refl)
              refl)
            refl)
          refl)
        refl)
      refl

rows_run :
    Runs x y false zeros
      (rows_thread1 2 1 2)
      (rows_thread2 2 1 2)
      rows_end
      (record { pc = at_load; todo = [] })
      (record { pc = at_load; todo = [] })
unfolding rows_thread1 rows_thread2 i_loop j_loop k_loop step_at set_cell
rows_run =
    second_steps
      (first_steps
        (second_steps
          (first_steps
            (second_steps (first_steps (second_steps (first_steps created refl) refl) refl) refl)
            refl)
          refl)
        refl)
      refl

inner_product_example : inner_end.z 1 0 % u32_mod ≡ (zeros 1 0 + dot x y 1 0 0 2) % u32_mod
inner_product_example =
    inner_product x y zeros 2 1 2 inner_run refl refl 1 0 (omega arith) (omega arith)

rows_product_example : rows_end.z 1 0 % u32_mod ≡ (zeros 1 0 + dot x y 1 0 0 2) % u32_mod
rows_product_example =
    rows_product x y zeros 2 1 2 rows_run refl refl 1 0 (omega arith) (omega arith)

programs_agree_example :
    (inner_end.z 1 0 % u32_mod ≡ printed x y 2 1 0) × (rows_end.z 1 0 % u32_mod ≡ printed x y 2 1 0)
programs_agree_example =
    programs_agree x y zeros 2 1 2 (λ r c. refl) inner_run rows_run (refl, refl, refl, refl) 1 0
      (omega arith) (omega arith)

abbrev counted : Shared
counted = record { lock = 1; z = set_cell (set_cell zeros 0 0 1) 0 0 2 }

count_run :
    Counts 1 0 counted (record { pc = at_lock; todo = [] }) (record { pc = at_lock; todo = [] })
unfolding counting k_loop step_at set_cell
count_run =
    second_steps
      (second_steps
        (second_steps
          (second_steps
            (first_steps (first_steps (first_steps (first_steps created refl) refl) refl) refl)
            refl)
          refl)
        refl)
      refl

counter_at_end_example : counted.z 0 0 % u32_mod ≡ (0 + 2 * 1) % u32_mod
counter_at_end_example = counter_at_end 1 0 count_run refl refl
