-- ===== src/Mailbox/Memory/Invariant.antt =====
-- lab1/sender.c and lab1/receiver.c: the invariant of the mailbox in shared memory.
use ncku_operating_system.Base.{
  ℕ, zero, suc, ◌+◌, ◌≤◌, ◌≡◌, refl, Bool, true, List, [], ◌∷◌, ◌++◌, map, arith, if◌then◌else◌,
  Text, take, length, All, ap,
}
use ncku_operating_system.Mailbox.Message.{Message, is_exit_text}
use ncku_operating_system.Mailbox.Texts.{take-take, HasHead, IsPlain, IsEnded}
use ncku_operating_system.Mailbox.Memory.{
  ShmMailbox, SenderPc, s_create, s_ready, s_empty, s_mutex, s_buffer, s_length, s_is_exit,
  s_post_mutex, s_post_full, s_done, payload_size, Sender, ReceiverPc, r_create, r_ready, r_full,
  r_mutex, r_length, r_done, r_copy, r_clear, r_post_mutex, r_post_empty, r_check, Receiver, stored,
  bounded,
}

-- A message as it comes out of the mailbox.
abbrev pub delivered : Message → Message
delivered m = record {
  m_type = (if is_exit_text m.msg_text then 2 else 1);
  msg_text = take (payload_size m.msg_text) m.msg_text;
}

-- 1 for a process that has taken `empty` or `full` and not yet given the other one back.
abbrev pub s_token : SenderPc → ℕ
s_token s_mutex = 1
s_token s_buffer = 1
s_token s_length = 1
s_token s_is_exit = 1
s_token s_post_mutex = 1
s_token s_post_full = 1
s_token _ = 0

abbrev pub r_token : ReceiverPc → ℕ
r_token r_mutex = 1
r_token r_length = 1
r_token (r_copy n) = 1
r_token (r_clear m) = 1
r_token (r_post_mutex m) = 1
r_token (r_post_empty m) = 1
r_token _ = 0

-- 1 for a process between its `sem_wait(mutex)` and its `sem_post(mutex)`.
abbrev pub s_inside : SenderPc → ℕ
s_inside s_buffer = 1
s_inside s_length = 1
s_inside s_is_exit = 1
s_inside s_post_mutex = 1
s_inside _ = 0

abbrev pub r_inside : ReceiverPc → ℕ
r_inside r_length = 1
r_inside (r_copy n) = 1
r_inside (r_clear m) = 1
r_inside (r_post_mutex m) = 1
r_inside _ = 0

-- 1 for a receiver that has taken `full` and not yet copied the message.
abbrev pub r_reading : ReceiverPc → ℕ
r_reading r_mutex = 1
r_reading r_length = 1
r_reading (r_copy n) = 1
r_reading _ = 0

-- The message that the receiver has copied and not yet looked at.
abbrev pub local : ReceiverPc → List Message
local (r_clear m) = m ∷ []
local (r_post_mutex m) = m ∷ []
local (r_post_empty m) = m ∷ []
local (r_check m) = m ∷ []
local _ = []

abbrev pub slot : ℕ → Message → List Message
slot zero m = []
slot (suc n) m = m ∷ []

-- The message in the mailbox, if there is one that has not been copied.
abbrev pub buffered : ShmMailbox → ReceiverPc → List Message
buffered box pc = slot (box.full + r_reading pc) (stored box (bounded box.length))

-- What the sender has stored of the message that it is sending.
abbrev pub SenderLocal :
    SenderPc → List Message → (buffer : Text) → (length : ℕ) → (is_exit : Bool) → Type 0
SenderLocal s_create todo buffer length is_exit = ⊥
SenderLocal s_ready todo buffer length is_exit = Unit
SenderLocal s_empty todo buffer length is_exit = HasHead todo (λ m. Unit)
SenderLocal s_mutex todo buffer length is_exit = HasHead todo (λ m. Unit)
SenderLocal s_buffer todo buffer length is_exit = HasHead todo (λ m. Unit)
SenderLocal s_length todo buffer length is_exit =
    HasHead todo (λ m. buffer ≡ take (payload_size m.msg_text) m.msg_text)
SenderLocal s_is_exit todo buffer length is_exit =
    HasHead todo (λ m.
      (buffer ≡ take (payload_size m.msg_text) m.msg_text) × (length ≡ payload_size m.msg_text))
SenderLocal s_post_mutex todo buffer length is_exit = HasHead todo (λ m.
    (buffer ≡ take (payload_size m.msg_text) m.msg_text)
    × (length ≡ payload_size m.msg_text)
    × (is_exit ≡ is_exit_text m.msg_text))
SenderLocal s_post_full todo buffer length is_exit = HasHead todo (λ m.
    (buffer ≡ take (payload_size m.msg_text) m.msg_text)
    × (length ≡ payload_size m.msg_text)
    × (is_exit ≡ is_exit_text m.msg_text))
SenderLocal s_done todo buffer length is_exit = todo ≡ []

-- What the receiver has loaded, and that it goes on until it has received an exit message.
abbrev pub ReceiverLocal : ReceiverPc → List Message → (length : ℕ) → Type 0
ReceiverLocal r_create got length = ⊥
ReceiverLocal (r_copy n) got length = (n ≡ bounded length) × All IsPlain got
ReceiverLocal r_done got length = IsEnded got
ReceiverLocal _ got length = All IsPlain got

abbrev pub flow : (got copied waiting rest : List Message) → List Message
flow got copied waiting rest = got ++ (copied ++ (waiting ++ rest))

-- The invariant, once the mailbox is ready: of `empty`, `full` and the two processes one has the token,
-- and of `mutex` and the processes one; the messages received, copied, stored and still to be sent are
-- those to be sent at the start, in order.
pub record IsLive (ms : List Message) (box : ShmMailbox) (s : Sender) (r : Receiver) : Type 0 where
  pub is_ready : box.ready ≡ true
  pub tokens : box.empty + box.full + (s_token s.pc + r_token r.pc) ≡ 1
  pub one : box.mutex + (s_inside s.pc + r_inside r.pc) ≡ 1
  pub sending : SenderLocal s.pc s.todo box.buffer box.length box.is_exit
  pub receiving : ReceiverLocal r.pc r.got box.length
  pub stream : flow r.got (local r.pc) (buffered box r.pc) (map delivered s.todo) ≡ map delivered ms

bounded-payload_size : (text : Text) → bounded (payload_size text) ≡ payload_size text
unfolding bounded payload_size
bounded-payload_size text = ground arith

-- A mailbox that the sender has filled holds its message.
pub stored-delivered :
    (box : ShmMailbox) (m : Message)
    → box.buffer ≡ take (payload_size m.msg_text) m.msg_text
    → box.length ≡ payload_size m.msg_text
    → box.is_exit ≡ is_exit_text m.msg_text
    → stored box (bounded box.length) ≡ delivered m
stored-delivered box m e f g = simp (f, bounded-payload_size, e, g, take-take) refl

pub reading-le-token : (pc : ReceiverPc) → r_reading pc ≤ r_token pc
reading-le-token r_create = omega arith
reading-le-token r_ready = omega arith
reading-le-token r_full = omega arith
reading-le-token r_mutex = omega arith
reading-le-token r_length = omega arith
reading-le-token r_done = omega arith
reading-le-token (r_copy n) = omega arith
reading-le-token (r_clear m) = omega arith
reading-le-token (r_post_mutex m) = omega arith
reading-le-token (r_post_empty m) = omega arith
reading-le-token (r_check m) = omega arith

-- While the sender has the token, nothing unread stands in the mailbox.
pub empty_slot :
    (full : ℕ) (pc : ReceiverPc) (m : Message)
    → full + r_token pc ≡ 0
    → slot (full + r_reading pc) m ≡ []
empty_slot full pc m e =
    let nothing : full + r_reading pc ≡ 0 = omega (arith, reading-le-token pc) in
    ap (λ n. slot n m) nothing

pub ReceiverLocal-other :
    (pc : ReceiverPc) (got : List Message) (l l' : ℕ)
    → r_token pc ≡ 0
    → ReceiverLocal pc got l
    → ReceiverLocal pc got l'
ReceiverLocal-other r_create got l l' e k = k
ReceiverLocal-other r_ready got l l' e k = k
ReceiverLocal-other r_full got l l' e k = k
ReceiverLocal-other r_mutex got l l' e k = k
ReceiverLocal-other r_length got l l' e k = k
ReceiverLocal-other r_done got l l' e k = k
ReceiverLocal-other (r_copy n) got l l' e k = absurd (omega (arith, e))
ReceiverLocal-other (r_clear m) got l l' e k = k
ReceiverLocal-other (r_post_mutex m) got l l' e k = k
ReceiverLocal-other (r_post_empty m) got l l' e k = k
ReceiverLocal-other (r_check m) got l l' e k = k
