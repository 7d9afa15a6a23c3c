-- ===== src/Mailbox/Setup/Laws.antt =====
-- lab1/sender.c and lab1/receiver.c: what is left when the two programs end.
use ncku_operating_system.Base.{◌≡◌, refl, ◌⊎◌, inl, inr, Bool, true, false, ◌&&◌}
use ncku_operating_system.Mailbox.Setup.{
  shared_mem, Answers, Resources, Outcome, ended, waits, destroy, remove_segment, init_semaphores,
  prepare, get_segment, sender_attach, open_input, sender_setup, sender_cleanup, receiver_attach,
  receiver_setup, receiver_cleanup, sender_main, receiver_main,
}

-- A system without the segment, with or without the queue; and one with a segment.
abbrev pub absent : (queue : Bool) → Resources
absent queue = record {
  queue = queue;
  segment = false;
  attached = false;
  mutex = false;
  empty = false;
  full = false;
  ready = false;
  input = false;
}

abbrev pub present : (queue mutex empty full ready : Bool) → Resources
present queue mutex empty full ready = record {
  queue = queue;
  segment = true;
  attached = false;
  mutex = mutex;
  empty = empty;
  full = full;
  ready = ready;
  input = false;
}

-- What a process can find.
pub data IsFound : Resources → Type 0 where
  without_segment : (queue : Bool) → IsFound (absent queue)
  with_segment :
      (queue mutex empty full ready : Bool) → IsFound (present queue mutex empty full ready)

abbrev pub answers : (t q c g a i j k o d n : Bool) → Answers
answers t q c g a i j k o d n = record {
  f_tok = t;
  msg_get = q;
  shm_create = c;
  shm_get = g;
  shm_at = a;
  init_mutex = i;
  init_empty = j;
  init_full = k;
  f_open = o;
  shm_ctl = d;
  msg_ctl = n;
}

-- The segment and what is in it are gone.
abbrev pub without_memory : Resources → Resources
without_memory r = record r {
  segment = false;
  attached = false;
  mutex = false;
  empty = false;
  full = false;
  ready = false;
}

-- The semaphores are destroyed and the process is detached, but the segment is still there, and still
-- says that it is ready.
abbrev pub not_removed : Resources → Resources
not_removed r = record (without_memory r) { segment = true; ready = true }

-- What the receiver leaves in `r`; `removes` is whether a `shmctl` removes the segment.
abbrev pub Releases : (removes : Bool) → Resources → Outcome → Type 0
Releases true r (ended true after) = after ≡ without_memory r
Releases false r (ended true after) = after ≡ not_removed r
Releases true r (ended false after) = after ≡ r
Releases false r (ended false after) = (after ≡ r) ⊎ (after ≡ record r { segment = true })
Releases removes r (waits after) = (r.segment ≡ true) × (r.ready ≡ false)

receiver_alone :
    (q t mq c g a i j k o d n : Bool)
    → Releases d (absent q) (receiver_main (answers t mq c g a i j k o d n) shared_mem (absent q))
unfolding receiver_main receiver_setup receiver_attach receiver_cleanup get_segment prepare
    init_semaphores destroy remove_segment
receiver_alone q false mq c g a i j k o true n = refl
receiver_alone q false mq c g a i j k o false n = inl refl
receiver_alone q true mq false g a i j k o true n = refl
receiver_alone q true mq false g a i j k o false n = inl refl
receiver_alone q true mq true g false i j k o true n = refl
receiver_alone q true mq true g false i j k o false n = inr refl
receiver_alone q true mq true g true false j k o true n = refl
receiver_alone q true mq true g true false j k o false n = inr refl
receiver_alone q true mq true g true true false k o true n = refl
receiver_alone q true mq true g true true false k o false n = inr refl
receiver_alone q true mq true g true true true false o true n = refl
receiver_alone q true mq true g true true true false o false n = inr refl
receiver_alone q true mq true g true true true true o true n = refl
receiver_alone q true mq true g true true true true o false n = refl

receiver_second :
    (q m e f y t mq c g a i j k o d n : Bool)
    → Releases d
        (present q m e f y)
        (receiver_main (answers t mq c g a i j k o d n) shared_mem (present q m e f y))
unfolding receiver_main receiver_setup receiver_attach receiver_cleanup get_segment prepare destroy
    remove_segment
receiver_second q m e f y false mq c g a i j k o true n = refl
receiver_second q m e f y false mq c g a i j k o false n = inl refl
receiver_second q m e f y true mq c false a i j k o true n = refl
receiver_second q m e f y true mq c false a i j k o false n = inl refl
receiver_second q m e f y true mq c true false i j k o true n = refl
receiver_second q m e f y true mq c true false i j k o false n = inl refl
receiver_second q m e f false true mq c true true i j k o d n = (refl, refl)
receiver_second q m e f true true mq c true true i j k o true n = refl
receiver_second q m e f true true mq c true true i j k o false n = refl

-- Whatever the receiver finds in shared memory and whatever the system answers: if a segment can be
-- removed and the setup fails, the receiver leaves everything as it has found it, and if it ends well,
-- the segment and the semaphores are gone. If `shmctl` does not remove a segment, then a setup that
-- fails leaves at most the segment that it has made, and a receiver that ends well leaves the segment,
-- which still says that it is ready, with its semaphores destroyed. The receiver waits for ever only
-- for a segment that is there and not initialised.
pub receiver-Releases :
    (a : Answers) (r : Resources) → IsFound r → Releases a.shm_ctl r (receiver_main a shared_mem r)
receiver-Releases a r (without_segment q) =
    receiver_alone q a.f_tok a.msg_get a.shm_create a.shm_get a.shm_at a.init_mutex a.init_empty
      a.init_full a.f_open a.shm_ctl a.msg_ctl
receiver-Releases a r (with_segment q m e f y) =
    receiver_second q m e f y a.f_tok a.msg_get a.shm_create a.shm_get a.shm_at a.init_mutex
      a.init_empty a.init_full a.f_open a.shm_ctl a.msg_ctl

-- What the sender leaves in `r`: a segment that is ready when it ends well, and everything as it was if
-- the setup fails, but for a segment that could not be removed.
abbrev pub Leaves : (removes : Bool) → Resources → Outcome → Type 0
Leaves removes r (ended true after) =
    (after.segment ≡ true)
    × (after.ready ≡ true)
    × (after.attached ≡ false)
    × (after.input ≡ false)
    × (after.queue ≡ r.queue)
Leaves true r (ended false after) = after ≡ r
Leaves false r (ended false after) = (after ≡ r) ⊎ (after ≡ not_removed r)
Leaves removes r (waits after) = (r.segment ≡ true) × (r.ready ≡ false)

sender_alone :
    (q t mq c g o d n : Bool)
    → Leaves d
        (absent q)
        (sender_main (answers t mq c g true true true true o d n) shared_mem (absent q))
unfolding sender_main sender_setup sender_attach sender_cleanup get_segment prepare init_semaphores
    destroy remove_segment open_input
sender_alone q false mq c g o true n = refl
sender_alone q false mq c g o false n = inl refl
sender_alone q true mq false g o true n = refl
sender_alone q true mq false g o false n = inl refl
sender_alone q true mq true g false true n = refl
sender_alone q true mq true g false false n = inr refl
sender_alone q true mq true g true d n = (refl, refl, refl, refl, refl)

sender_second :
    (q m e f y t mq c g a i j k o d n : Bool)
    → Leaves d
        (present q m e f y)
        (sender_main (answers t mq c g a i j k o d n) shared_mem (present q m e f y))
unfolding sender_main sender_setup sender_attach sender_cleanup get_segment prepare open_input
sender_second q m e f y false mq c g a i j k o true n = refl
sender_second q m e f y false mq c g a i j k o false n = inl refl
sender_second q m e f y true mq c false a i j k o true n = refl
sender_second q m e f y true mq c false a i j k o false n = inl refl
sender_second q m e f y true mq c true false i j k o true n = refl
sender_second q m e f y true mq c true false i j k o false n = inl refl
sender_second q m e f false true mq c true true i j k o d n = (refl, refl)
sender_second q m e f true true mq c true true i j k false true n = refl
sender_second q m e f true true mq c true true i j k false false n = inl refl
sender_second q m e f true true mq c true true i j k true d n = (refl, refl, refl, refl, refl)

-- Whatever the sender finds, in shared memory, if `shmat` and the calls of `sem_init` succeed and whatever
-- else the system answers: if it fails, it leaves everything as it has found it, or, where `shmctl` does
-- not remove the segment that it has made, that segment with its semaphores destroyed; if it ends well,
-- the segment is there and ready, and it is detached; and it waits for ever only for a segment that is
-- there and not initialised.
pub sender-Leaves :
    (t mq c g o d n : Bool) (r : Resources)
    → IsFound r
    → Leaves d r (sender_main (answers t mq c g true true true true o d n) shared_mem r)
sender-Leaves t mq c g o d n r (without_segment q) = sender_alone q t mq c g o d n
sender-Leaves t mq c g o d n r (with_segment q m e f y) =
    sender_second q m e f y t mq c g true true true true o d n

-- The setup of the sender fails, and a receiver that finds what it leaves waits for ever.
abbrev pub Blocks : Answers → Outcome → Type 0
Blocks b (ended true after) = ⊥
Blocks b (ended false after) =
    receiver_main b shared_mem after ≡ waits (record after { attached = true })
Blocks b (waits after) = ⊥

receiver_blocked :
    (mq c i j k o d n : Bool) (r : Resources)
    → r.segment ≡ true
    → r.ready ≡ false
    → receiver_main (answers true mq c true true i j k o d n) shared_mem r
      ≡ waits (record r { attached = true })
unfolding receiver_main receiver_setup receiver_attach get_segment prepare
receiver_blocked mq c i j k o d n r e f = simp (e, f) refl

sender_main-Blocks :
    (b : Answers) (q mq g a i j k o d n : Bool)
    → ((r : Resources)
        → r.segment ≡ true
        → r.ready ≡ false
        → receiver_main b shared_mem r ≡ waits (record r { attached = true }))
    → (a && (i && (j && k))) ≡ false
    → Blocks b (sender_main (answers true mq true g a i j k o d n) shared_mem (absent q))
unfolding sender_main sender_setup sender_attach sender_cleanup get_segment prepare init_semaphores
    destroy
sender_main-Blocks b q mq g false i j k o d n h e = h _ refl refl
sender_main-Blocks b q mq g true false j k o d n h e = h _ refl refl
sender_main-Blocks b q mq g true true false k o d n h e = h _ refl refl
sender_main-Blocks b q mq g true true true false o d n h e = h _ refl refl
sender_main-Blocks b q mq g true true true true o d n h e = absurd (cc e)

-- When the sender has created the segment, and `shmat` or a `sem_init` fails, it fails and leaves the
-- segment, not initialised: a receiver that is started next and whose `ftok`, `shmget` and `shmat`
-- succeed waits for ever. The other answers of the system are arbitrary.
pub sender-Blocks :
    (q mq g a i j k o d n mq' c' i' j' k' o' d' n' : Bool)
    → (a && (i && (j && k))) ≡ false
    → Blocks
        (answers true mq' c' true true i' j' k' o' d' n')
        (sender_main (answers true mq true g a i j k o d n) shared_mem (absent q))
sender-Blocks q mq g a i j k o d n mq' c' i' j' k' o' d' n' e =
    sender_main-Blocks _ q mq g a i j k o d n (receiver_blocked mq' c' i' j' k' o' d' n') e
