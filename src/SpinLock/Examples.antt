-- ===== src/SpinLock/Examples.antt =====
-- lab3/1/1_2/1_2.c: the theorems about the spin lock at states that the program reaches.
use ncku_operating_system.Base.{◌≡◌, refl, false}
use ncku_operating_system.SpinLock.{
  step_at, at_load, Program, Reachable, starts, first_steps, created,
}
use ncku_operating_system.SpinLock.Laws.{
  in_critical, mutual_exclusion, between, ended, can_end, count_at_end,
}

count_at_end_example : (between 20000 ended ended).shared.a ≡ 20000
count_at_end_example = count_at_end (between 20000 ended ended) can_end refl refl

-- The first thread has the lock.
abbrev locked : Program
locked = record {
  shared = record { lock = 0; a = 0 };
  t1 = record { pc = at_load; i = 0 };
  t2 = created;
}

locked-Reachable : Reachable locked
unfolding step_at
locked-Reachable = first_steps (first_steps (first_steps starts refl) refl) refl

mutual_exclusion_example : in_critical locked.t2.pc ≡ false
mutual_exclusion_example = mutual_exclusion locked locked-Reachable refl
