-- ===== src/Mailbox/Steps.antt =====
-- lab1/sender.c and lab1/receiver.c: whether a process can take its next step.
use ncku_operating_system.Base.{◌≡◌, refl, Bool, true, false, ◌||◌, Option, none, some}

abbrev pub is_some : {A : Type 0} → Option A → Bool
is_some none = false
is_some (some a) = true

pub or_left : (a b : Bool) → a ≡ true → (a || b) ≡ true
or_left a b e = rw e refl

pub or_right : (a b : Bool) → b ≡ true → (a || b) ≡ true
or_right true b e = refl
or_right false b e = e
