-- ===== src/Mailbox/Setup.antt =====
-- lab1/sender.c and lab1/receiver.c: what the two `main`s create, attach and remove, given what the system
-- answers. The messages are sent and received in between; a process that ends there, by `exit`, does
-- not come to its cleanup and is not considered here.
pub mod Laws
use ncku_operating_system.Base.{ℕ, Bool, true, false, not, ◌&&◌, ◌||◌, if◌then◌else◌, ◌==◌}

-- `MSG_PASSING` and `SHARED_MEM`; the flag of a mailbox that has not been set up is 0.
abbrev pub msg_passing : ℕ
msg_passing = 1

abbrev pub shared_mem : ℕ
shared_mem = 2

-- Which calls succeed. `shmget` is called with IPC_EXCL first, and again if the segment exists; `shm_ctl`
-- and `msg_ctl` are the `shmctl` and `msgctl` with IPC_RMID of a cleanup. `shmdt` and `sem_destroy` are
-- only called for a segment that is attached and semaphores that are initialised, and the programs do
-- not look at what they return: they succeed here.
pub record Answers : Type 0 where
  pub f_tok : Bool
  pub msg_get : Bool
  pub shm_create : Bool
  pub shm_get : Bool
  pub shm_at : Bool
  pub init_mutex : Bool
  pub init_empty : Bool
  pub init_full : Bool
  pub f_open : Bool
  pub shm_ctl : Bool
  pub msg_ctl : Bool

-- What there is: the message queue, the segment, its attachment to this process, the semaphores in the
-- segment and `ready`, and the open input file.
pub record Resources : Type 0 where
  pub queue : Bool
  pub segment : Bool
  pub attached : Bool
  pub mutex : Bool
  pub empty : Bool
  pub full : Bool
  pub ready : Bool
  pub input : Bool

-- The variables of `main` that its cleanup reads.
pub record Locals : Type 0 where
  pub flag : ℕ
  pub msqid : Bool
  pub shmid : Bool
  pub created : Bool
  pub shared : Bool
  pub sem_ready : Bool
  pub input : Bool

abbrev pub no_locals : Locals
no_locals = record {
  flag = 0;
  msqid = false;
  shmid = false;
  created = false;
  shared = false;
  sem_ready = false;
  input = false;
}

-- A process ends with its exit code, or waits for `ready` and nobody sets it.
pub data Outcome : Type 0 where
  ended : (success : Bool) → Resources → Outcome
  waits : Resources → Outcome

-- A part of the setup: `goto cleanup`, a wait, or on with what follows.
pub data Setup : Type 0 where
  fails waits_ready goes_on : Locals → Resources → Setup

unfoldable pub destroy : Resources → Resources
destroy r = record r { full = false; empty = false; mutex = false }

-- `msgctl(msqid, IPC_RMID, NULL)`.
unfoldable pub remove_queue : Answers → Resources → Resources
remove_queue a r = if a.msg_ctl then record r { queue = false } else r

-- `shmctl(shmid, IPC_RMID, NULL)`; a segment that cannot be removed stays as it is.
unfoldable pub remove_segment : Answers → Resources → Resources
remove_segment a r = if a.shm_ctl then record r { segment = false; ready = false } else r

-- `memset` and the three calls of `sem_init`; a call that fails destroys the semaphores made before.
unfoldable pub init_semaphores : (mutex_ok empty_ok full_ok : Bool) → Locals → Resources → Setup
init_semaphores false empty_ok full_ok l r = fails l r
init_semaphores true false full_ok l r =
    fails l (record (record r { mutex = true }) { mutex = false })
init_semaphores true true false l r = fails l (destroy (record r { mutex = true; empty = true }))
init_semaphores true true true l r =
    goes_on (record l { sem_ready = true })
      (record r { mutex = true; empty = true; full = true; ready = true })

-- The process that has created the segment initialises it, the other one waits.
unfoldable pub prepare : Answers → Locals → Resources → Setup
prepare a l r =
    if l.created
    then init_semaphores a.init_mutex a.init_empty a.init_full l r
    else if r.ready
    then goes_on (record l { sem_ready = true }) r
    else waits_ready l r

-- `shmget`.
unfoldable pub get_segment : Answers → Resources → Setup
get_segment a r =
    if r.segment
    then if a.shm_get then goes_on (record no_locals { shmid = true }) r else fails no_locals r
    else if a.shm_create
    then goes_on (record no_locals { shmid = true; created = true }) (record r { segment = true })
    else fails no_locals r

abbrev pub and_then : Setup → (Locals → Resources → Setup) → Setup
and_then (fails l r) k = fails l r
and_then (waits_ready l r) k = waits_ready l r
and_then (goes_on l r) k = k l r

unfoldable pub get_queue : Answers → Resources → Setup
get_queue a r =
    if a.msg_get
    then goes_on (record no_locals { flag = msg_passing; msqid = true }) (record r { queue = true })
    else fails no_locals r

abbrev pub has_key : Answers → Resources → Setup → Setup
has_key a r next = if a.f_tok then next else fails no_locals r

-- The setup of the sender: the flag is set when the shared memory is ready.
unfoldable pub sender_attach : Answers → Locals → Resources → Setup
sender_attach a l r =
    if a.shm_at
    then and_then (prepare a (record l { shared = true }) (record r { attached = true }))
        (λ l r. goes_on (record l { flag = shared_mem }) r)
    else fails l r

unfoldable pub open_input : Answers → Locals → Resources → Setup
open_input a l r =
    if a.f_open then goes_on (record l { input = true }) (record r { input = true }) else fails l r

unfoldable pub sender_setup : Answers → (mechanism : ℕ) → Resources → Setup
sender_setup a mechanism r =
    if mechanism == msg_passing
    then and_then (has_key a r (get_queue a r)) (open_input a)
    else if mechanism == shared_mem
    then and_then (has_key a r (and_then (get_segment a r) (sender_attach a))) (open_input a)
    else fails no_locals r

unfoldable pub sender_cleanup : Answers → (success : Bool) → Locals → Resources → Resources
sender_cleanup a success l r =
    let closed = if l.input then record r { input = false } else r in
    let undo = not success && l.created in
    let destroyed = if undo then destroy closed else closed in
    let detached = record destroyed { attached = false } in
    let removed = if undo && l.shmid then remove_segment a detached else detached in
    let memory = if (l.flag == shared_mem) && l.shared then removed else closed in
    if (l.flag == msg_passing) && (not success && l.msqid) then remove_queue a memory else memory

-- The setup of the receiver: the flag is set as soon as the shared memory is attached; if that fails, a
-- segment that has been created is removed.
unfoldable pub receiver_attach : Answers → Locals → Resources → Setup
receiver_attach a l r =
    if a.shm_at
    then prepare a (record l { shared = true; flag = shared_mem }) (record r { attached = true })
    else fails l (if l.created && l.shmid then remove_segment a r else r)

unfoldable pub receiver_setup : Answers → (mechanism : ℕ) → Resources → Setup
receiver_setup a mechanism r =
    if mechanism == msg_passing
    then has_key a r (get_queue a r)
    else if mechanism == shared_mem
    then has_key a r (and_then (get_segment a r) (receiver_attach a))
    else fails no_locals r

unfoldable pub receiver_cleanup : Answers → (success : Bool) → Locals → Resources → Resources
receiver_cleanup a success l r =
    let dequeued =
      if (l.flag == msg_passing) && (l.msqid && success) then remove_queue a r else r in
    let should_remove = success || l.created in
    let destroyed = if should_remove && l.sem_ready then destroy dequeued else dequeued in
    let detached = record destroyed { attached = false } in
    let removed = if should_remove && l.shmid then remove_segment a detached else detached in
    if (l.flag == shared_mem) && l.shared then removed else dequeued

abbrev pub run : (cleanup : Bool → Locals → Resources → Resources) → Setup → Outcome
run cleanup (fails l r) = ended false (cleanup false l r)
run cleanup (waits_ready l r) = waits r
run cleanup (goes_on l r) = ended true (cleanup true l r)

-- The two programs, started with a right number of arguments.
unfoldable pub sender_main : Answers → (mechanism : ℕ) → Resources → Outcome
sender_main a mechanism r = run (sender_cleanup a) (sender_setup a mechanism r)

unfoldable pub receiver_main : Answers → (mechanism : ℕ) → Resources → Outcome
receiver_main a mechanism r = run (receiver_cleanup a) (receiver_setup a mechanism r)
