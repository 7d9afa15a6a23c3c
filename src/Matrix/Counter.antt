-- ===== src/Matrix/Counter.antt =====
-- lab3/1/1_1/1_1.c: two threads that count under the spin lock of the pthread library. `a` is taken as the
-- one element of a matrix, and `a = a + 1` as an update of it with the product 1 * 1; the load, the store and the
-- lock are those of the other programs. The number of rounds, 10000 in the code, is a parameter.
use ncku_operating_system.Base.{
  ℕ, zero, suc, ◌+◌, ◌*◌, ◌%◌, ◌≡◌, refl, true, false, List, [], arith, u32_mod, ap, ◌∙◌,
}
use ncku_operating_system.Matrix.{Matrix, Update, k_loop, Shared, Thread, Runs}
use ncku_operating_system.Matrix.Sums.{added, dot, added-k_loop}
use ncku_operating_system.Matrix.Ending.{sum_at_end}

abbrev pub ones : Matrix
ones i j = 1

-- `thread`.
unfoldable pub counting : (rounds : ℕ) → List Update
counting rounds = k_loop 0 0 0 rounds

-- The states of the two threads, from the value of `a` on.
abbrev pub Counts : (rounds a : ℕ) → Shared → Thread → Thread → Type 0
Counts rounds a s t u = Runs ones ones true (λ i j. a) (counting rounds) (counting rounds) s t u

dot-ones : (k n : ℕ) → dot ones ones 0 0 k n ≡ n
unfolding dot
dot-ones k zero = refl
dot-ones k (suc n) = omega (arith, dot-ones (suc k) n)

added-counting : (rounds : ℕ) → added ones ones (counting rounds) 0 0 ≡ rounds
unfolding counting
added-counting rounds = added-k_loop ones ones 0 0 0 0 0 rounds ∙ dot-ones 0 rounds

-- For every number of rounds and every order of the loads, stores and calls on the lock: when both threads have
-- ended, `a` is its first value plus twice the number of rounds, modulo 2 ^ 32; no addition is lost.
pub counter_at_end :
    (rounds a : ℕ) {s : Shared} {t u : Thread}
    → Counts rounds a s t u
    → t.todo ≡ []
    → u.todo ≡ []
    → s.z 0 0 % u32_mod ≡ (a + 2 * rounds) % u32_mod
counter_at_end rounds a run e f =
    sum_at_end ones ones (λ i j. a) true (counting rounds) (counting rounds) (λ n. true)
      (λ n. false) (λ n p q. absurd (cc q)) refl run e f 0 0
    ∙ ap (λ n. n % u32_mod) (omega (arith, added-counting rounds))
