-- ===== src/Mailbox/Queue.antt =====
-- lab1/sender.c and lab1/receiver.c: the mailbox as a System V message queue. A step is one call of `msgsnd`
-- or `msgrcv`, or the `strcmp` of the receiver's `main`; the steps of the two processes may be mixed in any
-- way. A call that returns EAGAIN or ENOMSG is made again and changes nothing; a process that ends because
-- of another error takes no more steps. The queue is empty at the start.
pub mod Laws
use ncku_operating_system.Base.{
  ℕ, zero, suc, ◌+◌, ◌-◌, ◌≡◌, Bool, true, false, List, [], ◌∷◌, ◌++◌, Option, none, some, ltb, leb,
  if◌then◌else◌, Text, take, length,
}
use ncku_operating_system.Mailbox.Message.{text_size, Message, is_exit_text}

-- The payload size of `send_via_msg_passing`.
unfoldable pub queued_size : Text → ℕ
queued_size text = if ltb text_size (length text + 1) then text_size - 1 else length text

-- The message that `msgsnd` is given, without the NUL behind its text.
unfoldable pub queued : Message → Message
queued m = record m { msg_text = take (queued_size m.msg_text) m.msg_text }

-- `recv_via_msg_passing` puts a NUL behind what `msgrcv` has received, the text and its NUL, or at the end
-- of the array.
unfoldable pub received : Message → Message
received m = record m {
  msg_text =
      if leb text_size (length m.msg_text + 1) then take (text_size - 1) m.msg_text else m.msg_text;
}

-- Where the receiver stands: in front of `msgrcv`, or of the `strcmp` of its `main`; or at the end.
pub data QueuePc : Type 0 where
  q_receive q_done : QueuePc
  q_check : Message → QueuePc

-- The queue, the messages still to be sent, and the receiver with the messages that it has received.
pub record QueueExchange : Type 0 where
  pub queue : List Message
  pub todo : List Message
  pub pc : QueuePc
  pub got : List Message

-- `msgrcv` with the type 0 takes the first message of the queue; with IPC_NOWAIT it fails on an empty one.
unfoldable pub receive_step :
    (queue todo : List Message) → QueuePc → (got : List Message) → Option QueueExchange
receive_step [] todo q_receive got = none
receive_step (m ∷ queue) todo q_receive got =
    some (record { queue = queue; todo = todo; pc = q_check (received m); got = got })
receive_step queue todo (q_check m) got = some (record {
  queue = queue;
  todo = todo;
  pc = (if is_exit_text m.msg_text then q_done else q_receive);
  got = got ++ m ∷ [];
})
receive_step queue todo q_done got = none

-- `has_room queue size` says if the system takes a message of `size` bytes into the queue; otherwise
-- `msgsnd` with IPC_NOWAIT fails.
module _ (has_room : List Message → ℕ → Bool) where
  unfoldable pub send_step :
      (queue todo : List Message) → QueuePc → (got : List Message) → Option QueueExchange
  send_step queue [] pc got = none
  send_step queue (m ∷ todo) pc got =
      if has_room queue (queued_size m.msg_text + 1)
      then some (record { queue = queue ++ queued m ∷ []; todo = todo; pc = pc; got = got })
      else none

  -- The states that the two processes can reach, when the sender has the messages `ms` to send.
  pub data QueueRun (ms : List Message) : QueueExchange → Type 0 where
    queue_starts : QueueRun ms (record { queue = []; todo = ms; pc = q_receive; got = [] })
    sends :
        {e e' : QueueExchange}
        → QueueRun ms e
        → send_step e.queue e.todo e.pc e.got ≡ some e'
        → QueueRun ms e'
    receives :
        {e e' : QueueExchange}
        → QueueRun ms e
        → receive_step e.queue e.todo e.pc e.got ≡ some e'
        → QueueRun ms e'
