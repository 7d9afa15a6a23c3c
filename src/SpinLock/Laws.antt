-- ===== src/SpinLock/Laws.antt =====
-- lab3/1/1_2/1_2.c: the invariant of the two threads, and the states at their ends.
use ncku_operating_system.Base.{
  ℕ, zero, suc, ◌+◌, ◌≤◌, ◌<◌, ◌≡◌, refl, inl, inr, Bool, true, false, Bool-cases, Option, none,
  some, arith, ltb, ◌==◌, lt→ltb, ltb→lt, ltb→le, sym, subst,
}
use ncku_operating_system.SpinLock.{
  rounds, unlocked, Shared, Pc, at_test, at_xchg, at_load, at_unlock, finished, at_sub, at_store,
  Thread, step_at, step, Program, created, Reachable, starts, first_steps, second_steps,
}

-- 1 for a thread that has the lock: from the `xchg` that found it free to the one that frees it.
abbrev pub holds : Pc → ℕ
holds at_test = 0
holds at_xchg = 0
holds at_load = 1
holds at_unlock = 1
holds finished = 0
holds (at_sub eax) = eax
holds (at_store loaded) = 1

-- The additions that a thread has made.
abbrev pub additions : Pc → (i : ℕ) → ℕ
additions at_unlock i = suc i
additions _ i = i

-- The rounds of a thread, and the value that it has loaded.
abbrev pub IsLocal : Shared → Pc → (i : ℕ) → Type 0
IsLocal s at_test i = i ≤ rounds
IsLocal s at_xchg i = i < rounds
IsLocal s at_load i = i < rounds
IsLocal s at_unlock i = i < rounds
IsLocal s finished i = i ≡ rounds
IsLocal s (at_sub eax) i = i < rounds
IsLocal s (at_store loaded) i = (i < rounds) × (loaded ≡ s.a)

-- The invariant: one of the lock and the two threads has the lock, and `a` counts the additions.
pub record IsInvariant (s : Shared) (t u : Thread) : Type 0 where
  pub one : s.lock + (holds t.pc + holds u.pc) ≡ 1
  pub total : s.a ≡ additions t.pc t.i + additions u.pc u.i
  pub here : IsLocal s t.pc t.i
  pub there : IsLocal s u.pc u.i

IsInvariant-sym : {s : Shared} {t u : Thread} → IsInvariant s t u → IsInvariant s u t
IsInvariant-sym v = record {
  one = omega (arith, v.one);
  total = omega (arith, v.total);
  here = v.there;
  there = v.here;
}

-- A thread that has not the lock does not depend on the shared variables.
IsLocal-other : (s s' : Shared) (pc : Pc) (i : ℕ) → holds pc ≡ 0 → IsLocal s pc i → IsLocal s' pc i
IsLocal-other s s' at_test i e l = l
IsLocal-other s s' at_xchg i e l = l
IsLocal-other s s' at_load i e l = l
IsLocal-other s s' at_unlock i e l = l
IsLocal-other s s' finished i e l = l
IsLocal-other s s' (at_sub eax) i e l = l
IsLocal-other s s' (at_store loaded) i e l = absurd (omega (arith, e))

IsLocal-lock :
    (s : Shared) (n : ℕ) (pc : Pc) (i : ℕ) → IsLocal s pc i → IsLocal (record s { lock = n }) pc i
IsLocal-lock s n at_test i l = l
IsLocal-lock s n at_xchg i l = l
IsLocal-lock s n at_load i l = l
IsLocal-lock s n at_unlock i l = l
IsLocal-lock s n finished i l = l
IsLocal-lock s n (at_sub eax) i l = l
IsLocal-lock s n (at_store loaded) i l = l

-- What a step leads to, from the invariant.
abbrev Leads : Thread → Option (Shared × Thread) → Type 0
Leads u none = Unit
Leads u (some (s', t')) = IsInvariant s' t' u

step-IsInvariant :
    (pc : Pc) (i : ℕ) (s : Shared) (u : Thread)
    → IsInvariant s (record { pc = pc; i = i }) u
    → Leads u (step_at pc i s)
unfolding step_at
step-IsInvariant at_test i s u v = elim (Bool-cases (ltb i rounds)) [
  | inl more ↦
      rw more
        (record { one = v.one; total = v.total; here = ltb→lt i rounds more; there = v.there })
  | inr ended ↦ rw ended (record {
    one = v.one;
    total = v.total;
    here = omega (arith, v.here, ltb→le i rounds ended);
    there = v.there;
  })
]
step-IsInvariant at_xchg i s u v = record {
  one = omega (arith, v.one);
  total = v.total;
  here = v.here;
  there = IsLocal-lock s 0 u.pc u.i v.there;
}
step-IsInvariant (at_sub eax) i s u v = elim (Bool-cases (eax == 0)) [
  | inl taken ↦
      rw taken
        (record { one = ground (arith, v.one); total = v.total; here = v.here; there = v.there })
  | inr free ↦
      rw free
        (record { one = ground (arith, v.one); total = v.total; here = v.here; there = v.there })
]
step-IsInvariant at_load i s u v = record {
  one = v.one;
  total = v.total;
  here = (v.here, refl);
  there = v.there;
}
step-IsInvariant (at_store loaded) i s u v = record {
  one = v.one;
  total = omega (arith, v.total, v.here.1);
  here = v.here.0;
  there = IsLocal-other s (record s { a = suc loaded }) u.pc u.i (omega (arith, v.one)) v.there;
}
step-IsInvariant at_unlock i s u v = record {
  one = omega (arith, v.one);
  total = v.total;
  here = v.here;
  there = IsLocal-lock s unlocked u.pc u.i v.there;
}
step-IsInvariant finished i s u v = tt

after :
    (t u : Thread) (s s' : Shared) (t' : Thread)
    → IsInvariant s t u
    → step t s ≡ some (s', t')
    → IsInvariant s' t' u
after t u s s' t' v e = subst (Leads u) e (step-IsInvariant t.pc t.i s u v)

pub reachable-IsInvariant : {p : Program} → Reachable p → IsInvariant p.shared p.t1 p.t2
reachable-IsInvariant starts = record {
  one = refl;
  total = refl;
  here = omega arith;
  there = omega arith;
}
reachable-IsInvariant (first_steps {s} {s'} {t} {u} {t'} r e) =
    after t u s s' t' (reachable-IsInvariant r) e
reachable-IsInvariant (second_steps {s} {s'} {t} {u} {u'} r e) =
    IsInvariant-sym (after u t s s' u' (IsInvariant-sym (reachable-IsInvariant r)) e)

-- Between the `spin_lock` and the end of the `spin_unlock`.
abbrev pub in_critical : Pc → Bool
in_critical at_load = true
in_critical at_unlock = true
in_critical (at_store loaded) = true
in_critical _ = false

holds-in_critical : (pc : Pc) → in_critical pc ≡ true → holds pc ≡ 1
holds-in_critical at_test e = absurd (cc e)
holds-in_critical at_xchg e = absurd (cc e)
holds-in_critical at_load e = refl
holds-in_critical at_unlock e = refl
holds-in_critical finished e = absurd (cc e)
holds-in_critical (at_sub eax) e = absurd (cc e)
holds-in_critical (at_store loaded) e = refl

-- In no reachable state are both threads between their `spin_lock` and `spin_unlock`.
pub mutual_exclusion :
    (p : Program) → Reachable p → in_critical p.t1.pc ≡ true → in_critical p.t2.pc ≡ false
mutual_exclusion p r e = elim (Bool-cases (in_critical p.t2.pc)) [
  | inl both ↦ absurd (
      omega (
        arith,
        (reachable-IsInvariant r).one,
        holds-in_critical p.t1.pc e,
        holds-in_critical p.t2.pc both,
      ))
  | inr other ↦ other
]

finished-additions :
    (s : Shared) (pc : Pc) (i : ℕ) → pc ≡ finished → IsLocal s pc i → additions pc i ≡ rounds
finished-additions s pc i e l =
    subst (λ q. IsLocal s q i → additions q i ≡ rounds) (sym e) (λ at_end. at_end) l

-- In every reachable state in which both threads have ended, `a` is 20000: no addition is lost.
pub count_at_end :
    (p : Program) → Reachable p → p.t1.pc ≡ finished → p.t2.pc ≡ finished → p.shared.a ≡ 20000
count_at_end p r e e' =
    let v = reachable-IsInvariant r in
    omega (
      arith,
      v.total,
      finished-additions p.shared p.t1.pc p.t1.i e v.here,
      finished-additions p.shared p.t2.pc p.t2.i e' v.there,
    )

-- The state between two rounds: the lock is free.
abbrev pub between : (a : ℕ) → Thread → Thread → Program
between a t u = record { shared = record { lock = unlocked; a = a }; t1 = t; t2 = u }

abbrev testing : ℕ → Thread
testing i = record { pc = at_test; i = i }

abbrev pub ended : Thread
ended = record { pc = finished; i = rounds }

-- A thread that finds the lock free goes once round its loop.
first_round :
    (a i : ℕ) (u : Thread)
    → i < rounds
    → Reachable (between a (testing i) u)
    → Reachable (between (suc a) (testing (suc i)) u)
unfolding step_at
first_round a i u more r =
    let go_on : ltb i rounds ≡ true = lt→ltb i rounds more in
    let r₁ =
      first_steps {s' = record { lock = 1; a = a }} {t' = record { pc = at_xchg; i = i }} r
        (rw go_on refl) in
    first_steps (first_steps (first_steps (first_steps (first_steps r₁ refl) refl) refl) refl) refl

second_round :
    (a i : ℕ) (t : Thread)
    → i < rounds
    → Reachable (between a t (testing i))
    → Reachable (between (suc a) t (testing (suc i)))
unfolding step_at
second_round a i t more r =
    let go_on : ltb i rounds ≡ true = lt→ltb i rounds more in
    let r₁ =
      second_steps {s' = record { lock = 1; a = a }} {u' = record { pc = at_xchg; i = i }} r
        (rw go_on refl) in
    second_steps (second_steps (second_steps (second_steps (second_steps r₁ refl) refl) refl) refl)
      refl

-- All the rounds that are left, `n` of them, and the end of the thread.
first_rounds :
    (n a i : ℕ) (u : Thread)
    → i + n ≡ rounds
    → Reachable (between a (testing i) u)
    → Reachable (between (a + n) ended u)
unfolding step_at
first_rounds zero a i u e r =
    let no_more : ltb i rounds ≡ false = ground arith in
    let r₁ =
      first_steps {s' = record { lock = 1; a = a }} {t' = record { pc = finished; i = i }} r
        (rw no_more refl) in
    subst (λ n. Reachable (between n ended u)) (omega arith)
      (subst (λ k. Reachable (between a (record { pc = finished; i = k }) u)) (omega arith) r₁)
first_rounds (suc n) a i u e r =
    subst (λ k. Reachable (between k ended u)) (omega arith)
      (first_rounds n (suc a) (suc i) u (omega arith) (first_round a i u (omega arith) r))

second_rounds :
    (n a i : ℕ) (t : Thread)
    → i + n ≡ rounds
    → Reachable (between a t (testing i))
    → Reachable (between (a + n) t ended)
unfolding step_at
second_rounds zero a i t e r =
    let no_more : ltb i rounds ≡ false = ground arith in
    let r₁ =
      second_steps {s' = record { lock = 1; a = a }} {u' = record { pc = finished; i = i }} r
        (rw no_more refl) in
    subst (λ n. Reachable (between n t ended)) (omega arith)
      (subst (λ k. Reachable (between a t (record { pc = finished; i = k }))) (omega arith) r₁)
second_rounds (suc n) a i t e r =
    subst (λ k. Reachable (between k t ended)) (omega arith)
      (second_rounds n (suc a) (suc i) t (omega arith) (second_round a i t (omega arith) r))

-- The program can end: there is an order of the steps after which both threads have ended and the lock
-- is free.
pub can_end : Reachable (between 20000 ended ended)
can_end = second_rounds rounds rounds 0 ended refl (first_rounds rounds 0 0 created refl starts)
