-- ===== src/Mailbox/Memory.antt =====
-- lab1/sender.c and lab1/receiver.c: the mailbox in shared memory. A step is one call on a semaphore, one
-- test of `ready`, or one access to the members of the mailbox; the steps of the two processes may be
-- mixed in any way. A call of `sem_wait` that is interrupted is made again and changes nothing; a process
-- that ends because a call on a semaphore fails takes no more steps.
pub mod Invariant
pub mod SenderSteps
pub mod ReceiverSteps
pub mod Texts
pub mod Laws
pub mod Progress
pub mod Ending
use ncku_operating_system.Base.{
  ℕ, zero, suc, ◌+◌, ◌-◌, ◌≡◌, Bool, true, false, List, [], ◌∷◌, ◌++◌, Option, none, some, leb,
  ◌==◌, if◌then◌else◌, Text, take, length,
}
use ncku_operating_system.Mailbox.Message.{text_size, Message, is_exit_text}

-- `shm_mailbox_t`; a semaphore is its value, the array `buffer` its string.
pub record ShmMailbox : Type 0 where
  pub ready : Bool
  pub mutex : ℕ
  pub full : ℕ
  pub empty : ℕ
  pub length : ℕ
  pub is_exit : Bool
  pub buffer : Text

-- After `memset` of a segment that has just been created.
abbrev pub zeroed : ShmMailbox
zeroed = record {
  ready = false;
  mutex = 0;
  full = 0;
  empty = 0;
  length = 0;
  is_exit = false;
  buffer = [];
}

-- The three calls of `sem_init` and `ready = 1`, by the process that has created the segment.
unfoldable pub initialised : ShmMailbox → ShmMailbox
initialised box = record box { mutex = 1; empty = 1; full = 0; ready = true }

-- Where the sender stands: creating the mailbox, or in `send_via_memory_sharing` in front of the test of
-- `ready`, `sem_wait(empty)`, `sem_wait(mutex)`, the `memcpy`, the stores of `length` and `is_exit`,
-- `sem_post(mutex)` and `sem_post(full)`; or at the end.
pub data SenderPc : Type 0 where
  s_create s_ready s_empty s_mutex s_buffer s_length s_is_exit s_post_mutex s_post_full s_done :
      SenderPc

-- The payload length of `send_via_memory_sharing`.
unfoldable pub payload_size : Text → ℕ
payload_size text = if leb text_size (length text) then text_size - 1 else length text

-- `sem_wait` on a semaphore of this value: it can go on, with the new value, if it is not 0.
abbrev pub sem_wait : ℕ → Option ℕ
sem_wait zero = none
sem_wait (suc n) = some n

-- `todo` are the messages that are still to be sent, the one that is being sent included.
pub record Sender : Type 0 where
  pub pc : SenderPc
  pub todo : List Message

abbrev pub at : SenderPc → List Message → ShmMailbox → Option (ShmMailbox × Sender)
at pc todo box = some (box, record { pc = pc; todo = todo })

-- One step of the sender; `none` where it waits or has ended.
unfoldable pub sender_step : SenderPc → List Message → ShmMailbox → Option (ShmMailbox × Sender)
sender_step s_create todo box = at s_ready todo (initialised box)
sender_step s_ready [] box = at s_done [] box
sender_step s_ready (m ∷ ms) box = if box.ready then at s_empty (m ∷ ms) box else none
sender_step s_empty todo box = elim (sem_wait box.empty) [
  | none ↦ none
  | some n ↦ at s_mutex todo (record box { empty = n })
]
sender_step s_mutex todo box = elim (sem_wait box.mutex) [
  | none ↦ none
  | some n ↦ at s_buffer todo (record box { mutex = n })
]
sender_step s_buffer [] box = none
sender_step s_buffer (m ∷ ms) box =
    at s_length (m ∷ ms) (record box { buffer = take (payload_size m.msg_text) m.msg_text })
sender_step s_length [] box = none
sender_step s_length (m ∷ ms) box =
    at s_is_exit (m ∷ ms) (record box { length = payload_size m.msg_text })
sender_step s_is_exit [] box = none
sender_step s_is_exit (m ∷ ms) box =
    at s_post_mutex (m ∷ ms) (record box { is_exit = is_exit_text m.msg_text })
sender_step s_post_mutex todo box = at s_post_full todo (record box { mutex = suc box.mutex })
sender_step s_post_full [] box = none
sender_step s_post_full (m ∷ ms) box = at s_ready ms (record box { full = suc box.full })
sender_step s_done todo box = none

-- Where the receiver stands: creating the mailbox, or in `recv_via_memory_sharing` in front of the test of
-- `ready`, `sem_wait(full)`, `sem_wait(mutex)`, the load of `length`, the `memcpy` (with the length), the
-- clearing of the members, `sem_post(mutex)` and `sem_post(empty)` (with the message), or in front of the
-- `strcmp` of its `main`; or at the end.
pub data ReceiverPc : Type 0 where
  r_create r_ready r_full r_mutex r_length r_done : ReceiverPc
  r_copy : ℕ → ReceiverPc
  r_clear r_post_mutex r_post_empty r_check : Message → ReceiverPc

-- `got` are the messages that have been received.
pub record Receiver : Type 0 where
  pub pc : ReceiverPc
  pub got : List Message

abbrev pub now : ReceiverPc → List Message → ShmMailbox → Option (ShmMailbox × Receiver)
now pc got box = some (box, record { pc = pc; got = got })

-- The message that stands in the mailbox, `copy_length` bytes of it.
abbrev pub stored : ShmMailbox → (copy_length : ℕ) → Message
stored box copy_length = record {
  m_type = (if box.is_exit then 2 else 1);
  msg_text = take copy_length box.buffer;
}

-- `copy_length` of `recv_via_memory_sharing`.
unfoldable pub bounded : ℕ → ℕ
bounded n = if leb text_size n then text_size - 1 else n

-- One step of the receiver.
unfoldable pub receiver_step :
    ReceiverPc → List Message → ShmMailbox → Option (ShmMailbox × Receiver)
receiver_step r_create got box = now r_ready got (initialised box)
receiver_step r_ready got box = if box.ready then now r_full got box else none
receiver_step r_full got box = elim (sem_wait box.full) [
  | none ↦ none
  | some n ↦ now r_mutex got (record box { full = n })
]
receiver_step r_mutex got box = elim (sem_wait box.mutex) [
  | none ↦ none
  | some n ↦ now r_length got (record box { mutex = n })
]
receiver_step r_length got box = now (r_copy (bounded box.length)) got box
receiver_step (r_copy n) got box = now (r_clear (stored box n)) got box
receiver_step (r_clear m) got box =
    now (r_post_mutex m) got (record box { length = 0; is_exit = false; buffer = [] })
receiver_step (r_post_mutex m) got box =
    now (r_post_empty m) got (record box { mutex = suc box.mutex })
receiver_step (r_post_empty m) got box = now (r_check m) got (record box { empty = suc box.empty })
receiver_step (r_check m) got box =
    now (if is_exit_text m.msg_text then r_done else r_ready) (got ++ m ∷ []) box
receiver_step r_done got box = none

-- Both processes and the mailbox.
pub record Exchange : Type 0 where
  pub box : ShmMailbox
  pub sender : Sender
  pub receiver : Receiver

-- The states that the two processes can reach, when the sender has the messages `ms` to send. The
-- process that creates the segment starts with it; the other one waits until it is ready.
pub data MemoryRun (ms : List Message) : Exchange → Type 0 where
  sender_creates : MemoryRun ms (record {
    box = zeroed;
    sender = record { pc = s_create; todo = ms };
    receiver = record { pc = r_ready; got = [] };
  })
  receiver_creates : MemoryRun ms (record {
    box = zeroed;
    sender = record { pc = s_ready; todo = ms };
    receiver = record { pc = r_create; got = [] };
  })
  sender_steps :
      {box box' : ShmMailbox} {s s' : Sender} {r : Receiver}
      → MemoryRun ms (record { box = box; sender = s; receiver = r })
      → sender_step s.pc s.todo box ≡ some (box', s')
      → MemoryRun ms (record { box = box'; sender = s'; receiver = r })
  receiver_steps :
      {box box' : ShmMailbox} {s : Sender} {r r' : Receiver}
      → MemoryRun ms (record { box = box; sender = s; receiver = r })
      → receiver_step r.pc r.got box ≡ some (box', r')
      → MemoryRun ms (record { box = box'; sender = s; receiver = r' })
