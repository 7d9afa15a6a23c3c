-- ===== src/Mailbox/Memory/Ending.antt =====
-- lab1/sender.c and lab1/receiver.c: the number of steps of the two processes.
use ncku_operating_system.Base.{
  ℕ, zero, suc, ◌+◌, ◌*◌, ◌≡◌, ◌≤◌, Bool-cases, inl, inr, List, [], ◌∷◌, Option, none, some, arith,
  Text, length, length-append, ap, subst,
}
use ncku_operating_system.Mailbox.Message.{Message, messages, is_exit_text}
use ncku_operating_system.Mailbox.Memory.{
  ShmMailbox, SenderPc, s_create, s_ready, s_empty, s_mutex, s_buffer, s_length, s_is_exit,
  s_post_mutex, s_post_full, s_done, sem_wait, Sender, sender_step, ReceiverPc, r_create, r_ready,
  r_full, r_mutex, r_length, r_done, r_copy, r_clear, r_post_mutex, r_post_empty, r_check, Receiver,
  receiver_step, Exchange, MemoryRun, sender_creates, receiver_creates, sender_steps,
  receiver_steps,
}
use ncku_operating_system.Mailbox.Texts.{texts, length-texts}
use ncku_operating_system.Mailbox.Memory.Laws.{memory_order}

-- The number of steps of a run.
abbrev pub steps : {ms : List Message} {e : Exchange} → MemoryRun ms e → ℕ
steps sender_creates = 0
steps receiver_creates = 0
steps (sender_steps run e) = suc (steps run)
steps (receiver_steps run e) = suc (steps run)

-- The steps of a process since it began with a message, and one for the creation of the mailbox.
abbrev s_index : SenderPc → ℕ
s_index s_create = 0
s_index s_ready = 1
s_index s_empty = 2
s_index s_mutex = 3
s_index s_buffer = 4
s_index s_length = 5
s_index s_is_exit = 6
s_index s_post_mutex = 7
s_index s_post_full = 8
s_index s_done = 9

abbrev r_index : ReceiverPc → ℕ
r_index r_create = 0
r_index r_ready = 1
r_index r_full = 2
r_index r_mutex = 3
r_index r_length = 4
r_index (r_copy n) = 5
r_index (r_clear m) = 6
r_index (r_post_mutex m) = 7
r_index (r_post_empty m) = 8
r_index (r_check m) = 9
r_index r_done = 10

abbrev SenderCounts : SenderPc → List Message → Option (ShmMailbox × Sender) → Type 0
SenderCounts pc todo none = Unit
SenderCounts pc todo (some (box', s')) =
    suc (s_index pc) + 8 * length s'.todo ≤ s_index s'.pc + 8 * length todo

abbrev ReceiverCounts : ReceiverPc → List Message → Option (ShmMailbox × Receiver) → Type 0
ReceiverCounts pc got none = Unit
ReceiverCounts pc got (some (box', r')) =
    suc (r_index pc) + 9 * length got ≤ r_index r'.pc + 9 * length r'.got

wait-counts :
    (pc pc' : SenderPc) (todo : List Message) (n : ℕ) (box : ℕ → ShmMailbox)
    → suc (s_index pc) ≤ s_index pc'
    → SenderCounts pc todo (elim (sem_wait n) [
      | none ↦ none
      | some k ↦ some (box k, record { pc = pc'; todo = todo })
    ])
wait-counts pc pc' todo zero box h = tt
wait-counts pc pc' todo (suc n) box h = omega (arith, h)

sender-counts :
    (pc : SenderPc) (todo : List Message) (box : ShmMailbox)
    → SenderCounts pc todo (sender_step pc todo box)
unfolding sender_step
sender-counts s_create todo box = omega arith
sender-counts s_ready [] box = omega arith
sender-counts s_ready (m ∷ todo) box = elim (Bool-cases box.ready) [
  | inl e ↦ simp (e) (omega arith)
  | inr e ↦ simp (e) tt
]
sender-counts s_empty todo box = wait-counts s_empty s_mutex todo box.empty _ (omega arith)
sender-counts s_mutex todo box = wait-counts s_mutex s_buffer todo box.mutex _ (omega arith)
sender-counts s_buffer [] box = tt
sender-counts s_buffer (m ∷ todo) box = omega arith
sender-counts s_length [] box = tt
sender-counts s_length (m ∷ todo) box = omega arith
sender-counts s_is_exit [] box = tt
sender-counts s_is_exit (m ∷ todo) box = omega arith
sender-counts s_post_mutex todo box = omega arith
sender-counts s_post_full [] box = tt
sender-counts s_post_full (m ∷ todo) box = omega arith
sender-counts s_done todo box = tt

r-wait-counts :
    (pc pc' : ReceiverPc) (got : List Message) (n : ℕ) (box : ℕ → ShmMailbox)
    → suc (r_index pc) ≤ r_index pc'
    → ReceiverCounts pc got
        (elim (sem_wait n) [ none ↦ none | some k ↦ some (box k, record { pc = pc'; got = got }) ])
r-wait-counts pc pc' got zero box h = tt
r-wait-counts pc pc' got (suc n) box h = omega (arith, h)

receiver-counts :
    (pc : ReceiverPc) (got : List Message) (box : ShmMailbox)
    → ReceiverCounts pc got (receiver_step pc got box)
unfolding receiver_step
receiver-counts r_create got box = omega arith
receiver-counts r_ready got box = elim (Bool-cases box.ready) [
  | inl e ↦ simp (e) (omega arith)
  | inr e ↦ simp (e) tt
]
receiver-counts r_full got box = r-wait-counts r_full r_mutex got box.full _ (omega arith)
receiver-counts r_mutex got box = r-wait-counts r_mutex r_length got box.mutex _ (omega arith)
receiver-counts r_length got box = omega arith
receiver-counts (r_copy n) got box = omega arith
receiver-counts (r_clear m) got box = omega arith
receiver-counts (r_post_mutex m) got box = omega arith
receiver-counts (r_post_empty m) got box = omega arith
receiver-counts (r_check m) got box = elim (Bool-cases (is_exit_text m.msg_text)) [
  | inl e ↦ rw (e) (omega (arith, length-append got (m ∷ [])))
  | inr e ↦ rw (e) (omega (arith, length-append got (m ∷ [])))
]
receiver-counts r_done got box = tt

abbrev Within : List Message → ℕ → Sender → Receiver → Type 0
Within ms n s r =
    n + 8 * length s.todo ≤ 8 * length ms + (s_index s.pc + 9 * length r.got) + r_index r.pc

steps-Within :
    (ms : List Message) (e : Exchange) (run : MemoryRun ms e)
    → Within ms (steps run) e.sender e.receiver
steps-Within ms e sender_creates = omega arith
steps-Within ms e receiver_creates = omega arith
steps-Within ms e (sender_steps {box} {box'} {s} {s'} {r} run step) =
    let count : SenderCounts s.pc s.todo (some (box', s')) =
      subst (SenderCounts s.pc s.todo) step (sender-counts s.pc s.todo box) in
    omega (arith, count, steps-Within ms _ run)
steps-Within ms e (receiver_steps {box} {box'} {s} {r} {r'} run step) =
    let count : ReceiverCounts r.pc r.got (some (box', r')) =
      subst (ReceiverCounts r.pc r.got) step (receiver-counts r.pc r.got box) in
    omega (arith, count, steps-Within ms _ run)

s_index-le : (pc : SenderPc) → s_index pc ≤ 9
s_index-le s_create = omega arith
s_index-le s_ready = omega arith
s_index-le s_empty = omega arith
s_index-le s_mutex = omega arith
s_index-le s_buffer = omega arith
s_index-le s_length = omega arith
s_index-le s_is_exit = omega arith
s_index-le s_post_mutex = omega arith
s_index-le s_post_full = omega arith
s_index-le s_done = omega arith

r_index-le : (pc : ReceiverPc) → r_index pc ≤ 10
r_index-le r_create = omega arith
r_index-le r_ready = omega arith
r_index-le r_full = omega arith
r_index-le r_mutex = omega arith
r_index-le r_length = omega arith
r_index-le (r_copy n) = omega arith
r_index-le (r_clear m) = omega arith
r_index-le (r_post_mutex m) = omega arith
r_index-le (r_post_empty m) = omega arith
r_index-le (r_check m) = omega arith
r_index-le r_done = omega arith

-- For every input, a run of the two processes in which each step is one that can be taken has at most 17
-- steps for each message and 19 more: it comes to an end.
pub memory_termination :
    (input : List Text) (e : Exchange) (run : MemoryRun (messages input) e)
    → steps run ≤ 17 * length (messages input) + 19
memory_termination input e run =
    let ms = messages input in
    let (rest, order) = memory_order input e run in
    let lengths : length e.receiver.got + length rest ≡ length ms = omega (
      arith,
      length-texts e.receiver.got,
      length-texts ms,
      length-append (texts e.receiver.got) rest,
      ap length order,
    ) in
    omega (arith, lengths, steps-Within ms e run, s_index-le e.sender.pc, r_index-le e.receiver.pc)
