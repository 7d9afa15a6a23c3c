-- ===== src/Matrix.antt =====
-- lab3/2/2_1.c, lab3/2/2_2.c, lab3/3/3_1/3_1.c and lab3/3/3_2/3_2.c: the product of two matrices, by one
-- thread or by two. A matrix is a function of row and column to words of 32 bits; the signed arithmetic
-- of the code is taken to wrap around. A step is one call on the spin lock, or the load or the store of an
-- element of `z`. The sizes of the matrices are parameters. `pthread_spin_lock` goes on when the lock is free and takes it.
pub mod Sums
pub mod Laws
pub mod Ending
pub mod Product
pub mod Counter
pub mod Examples
use ncku_operating_system.Base.{
  ℕ, zero, suc, ◌+◌, ◌*◌, ◌/◌, ◌%◌, ◌-◌, ◌≡◌, Bool, true, false, ◌&&◌, List, [], ◌∷◌, ◌++◌, Option,
  none, some, ◌==◌, if◌then◌else◌, u32_mod,
}

abbrev pub Matrix : Type 0
Matrix = ℕ → ℕ → ℕ

-- One execution of `z[i][j] += x[i][k] * y[k][j]`.
pub record Update : Type 0 where
  pub i : ℕ
  pub j : ℕ
  pub k : ℕ

-- The loops, given by their first index and the number of rounds.
unfoldable pub k_loop : (i j k n : ℕ) → List Update
k_loop i j k zero = []
k_loop i j k (suc n) = record { i = i; j = j; k = k } ∷ k_loop i j (suc k) n

unfoldable pub j_loop : (i j n k m : ℕ) → List Update
j_loop i j zero k m = []
j_loop i j (suc n) k m = k_loop i j k m ++ j_loop i (suc j) n k m

unfoldable pub i_loop : (i rows cols k m : ℕ) → List Update
i_loop i zero cols k m = []
i_loop i (suc rows) cols k m = j_loop i 0 cols k m ++ i_loop (suc i) rows cols k m

-- The two threads of 2_2.c share the inner loop, those of 3_1.c and 3_2.c the rows.
unfoldable pub inner_thread1 : (rows cols inner : ℕ) → List Update
inner_thread1 rows cols inner = i_loop 0 rows cols 0 (inner / 2)

unfoldable pub inner_thread2 : (rows cols inner : ℕ) → List Update
inner_thread2 rows cols inner = i_loop 0 rows cols (inner / 2) (inner - inner / 2)

unfoldable pub rows_thread1 : (rows cols inner : ℕ) → List Update
rows_thread1 rows cols inner = i_loop 0 (rows / 2) cols 0 inner

unfoldable pub rows_thread2 : (rows cols inner : ℕ) → List Update
rows_thread2 rows cols inner = i_loop (rows / 2) (rows - rows / 2) cols 0 inner

-- Where a thread stands: in front of `pthread_spin_lock`, the load, the store with the value loaded, or
-- `pthread_spin_unlock`.
pub data Pc : Type 0 where
  at_lock at_load at_unlock : Pc
  at_store : ℕ → Pc

-- `todo` are the updates that the thread has not stored.
pub record Thread : Type 0 where
  pub pc : Pc
  pub todo : List Update

-- `lock` is 1 when it is free.
pub record Shared : Type 0 where
  pub lock : ℕ
  pub z : Matrix

unfoldable pub set_cell : Matrix → (i j value : ℕ) → Matrix
set_cell z i j value r c = if (r == i) && (c == j) then value else z r c

-- The beginning of a round, with the lock or without.
abbrev pub next_round : (locks : Bool) → Pc
next_round locks = if locks then at_lock else at_load

abbrev pub after_store : (locks : Bool) → Pc
after_store locks = if locks then at_unlock else at_load

module _ (x y : Matrix) (locks : Bool) where
  -- One step of a thread; `none` where it waits or has ended.
  unfoldable pub step_at : Pc → List Update → Shared → Option (Shared × Thread)
  step_at at_lock [] s = none
  step_at at_lock (u ∷ us) s =
      if s.lock == 1
      then some (record s { lock = 0 }, record { pc = at_load; todo = u ∷ us })
      else none
  step_at at_load [] s = none
  step_at at_load (u ∷ us) s = some (s, record { pc = at_store (s.z u.i u.j); todo = u ∷ us })
  step_at (at_store value) [] s = none
  step_at (at_store value) (u ∷ us) s = some (
    record s { z = set_cell s.z u.i u.j ((value + x u.i u.k * y u.k u.j) % u32_mod) },
    record { pc = after_store locks; todo = us },
  )
  step_at at_unlock us s = some (record s { lock = 1 }, record { pc = at_lock; todo = us })

  -- The states that two threads with these updates reach from the content `z` of the result's memory.
  pub data Runs (z : Matrix) (us vs : List Update) : Shared → Thread → Thread → Type 0 where
    created :
        Runs z us vs
          (record { lock = 1; z = z })
          (record { pc = next_round locks; todo = us })
          (record { pc = next_round locks; todo = vs })
    first_steps :
        {s s' : Shared} {t t' u : Thread}
        → Runs z us vs s t u
        → step_at t.pc t.todo s ≡ some (s', t')
        → Runs z us vs s' t' u
    second_steps :
        {s s' : Shared} {t u u' : Thread}
        → Runs z us vs s t u
        → step_at u.pc u.todo s ≡ some (s', u')
        → Runs z us vs s' t u'

-- The element that the only thread of 2_1.c prints: `res` behind its loop, from a round on.
module _ (x y : Matrix) where
  unfoldable pub res_loop : (i j k n : ℕ) → (res : ℕ) → ℕ
  res_loop i j k zero res = res
  res_loop i j k (suc n) res = res_loop i j (suc k) n ((res + x i k * y k j) % u32_mod)

  unfoldable pub printed : (inner i j : ℕ) → ℕ
  printed inner i j = res_loop i j 0 inner 0
