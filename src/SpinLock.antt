-- ===== src/SpinLock.antt =====
-- lab3/1/1_2/1_2.c: two threads that add to a shared counter under a spin lock. A step is one access to
-- the shared memory, or one test of a thread, so the steps of the threads may be mixed in any way.
pub mod Laws
mod Examples
use ncku_operating_system.Base.{
  ℕ, zero, suc, ◌≡◌, Bool, true, false, Option, none, some, ltb, ◌==◌, if◌then◌else◌,
}

-- The bound of the loop of `thread`.
abbrev pub rounds : ℕ
rounds = 10000

-- `UNLOCK`; a lock that is taken holds `LOCK`, which is 0.
abbrev pub unlocked : ℕ
unlocked = 1

-- The shared variables `lock` and `a`.
pub record Shared : Type 0 where
  pub lock : ℕ
  pub a : ℕ

-- Where a thread stands: at the test of its loop; in front of the `xchg` of `spin_lock` (with 0 in eax)
-- or of the `sub` (with what was in the lock); in front of the load of `a` or of the store of the loaded
-- value plus 1; in front of the `xchg` of `spin_unlock`; or at its end.
pub data Pc : Type 0 where
  at_test at_xchg at_load at_unlock finished : Pc
  at_sub at_store : ℕ → Pc

pub record Thread : Type 0 where
  pub pc : Pc
  pub i : ℕ

-- One step of a thread; `none` for one that has ended.
unfoldable pub step_at : Pc → (i : ℕ) → Shared → Option (Shared × Thread)
step_at at_test i s = some (s, record { pc = (if ltb i rounds then at_xchg else finished); i = i })
step_at at_xchg i s = some (record s { lock = 0 }, record { pc = at_sub s.lock; i = i })
step_at (at_sub eax) i s = some (s, record { pc = (if eax == 0 then at_xchg else at_load); i = i })
step_at at_load i s = some (s, record { pc = at_store s.a; i = i })
step_at (at_store loaded) i s = some (record s { a = suc loaded }, record { pc = at_unlock; i = i })
step_at at_unlock i s = some (record s { lock = unlocked }, record { pc = at_test; i = suc i })
step_at finished i s = none

abbrev pub step : Thread → Shared → Option (Shared × Thread)
step t s = step_at t.pc t.i s

-- The program: the shared variables and the two threads that `main` creates.
pub record Program : Type 0 where
  pub shared : Shared
  pub t1 : Thread
  pub t2 : Thread

abbrev pub created : Thread
created = record { pc = at_test; i = 0 }

abbrev pub start : Program
start = record { shared = record { lock = unlocked; a = 0 }; t1 = created; t2 = created }

-- The states that the program can reach, in any order of the threads' steps.
pub data Reachable : Program → Type 0 where
  starts : Reachable start
  first_steps :
      {s s' : Shared} {t u t' : Thread}
      → Reachable (record { shared = s; t1 = t; t2 = u })
      → step t s ≡ some (s', t')
      → Reachable (record { shared = s'; t1 = t'; t2 = u })
  second_steps :
      {s s' : Shared} {t u u' : Thread}
      → Reachable (record { shared = s; t1 = t; t2 = u })
      → step u s ≡ some (s', u')
      → Reachable (record { shared = s'; t1 = t; t2 = u' })
