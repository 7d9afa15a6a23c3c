-- ===== src/Mailbox/Examples.antt =====
-- lab1/sender.c and lab1/receiver.c: runs on a small input.
use ncku_operating_system.Base.{
  ℕ, ◌+◌, ◌≡◌, ◌≤◌, refl, Bool, true, false, ◌⊎◌, List, [], ◌∷◌, ◌++◌, ltb, Text, text_eq, cut_line,
  arith, length, ◌&&◌, ◌*◌,
}
use ncku_operating_system.Mailbox.Message.{Message, messages, up_to_exit, copy_text, exit_message}
use ncku_operating_system.Mailbox.Texts.{texts, IsPrefix}
use ncku_operating_system.Mailbox.Memory.{
  initialised, payload_size, sender_step, bounded, receiver_step, Exchange, MemoryRun,
  receiver_creates, sender_steps, receiver_steps, r_create, r_done, s_ready,
}
use ncku_operating_system.Mailbox.Memory.Laws.{memory_order}
use ncku_operating_system.Mailbox.Memory.Progress.{
  s_critical, r_critical, memory_exclusion, can_step, memory_progress,
}
use ncku_operating_system.Mailbox.Memory.Ending.{steps, memory_termination}
use ncku_operating_system.Mailbox.Queue.{
  queued_size, queued, received, receive_step, send_step, QueueExchange, QueueRun, queue_starts,
  sends, receives, q_receive, q_done,
}
use ncku_operating_system.Mailbox.Queue.Laws.{queue_delivery, queue_can_step, queue_progress}
use ncku_operating_system.Mailbox.Delivery.{memory_complete, lines_to_send}
use ncku_operating_system.Mailbox.Setup.{shared_mem, sender_main, receiver_main}
use ncku_operating_system.Mailbox.Setup.Laws.{
  absent, without_segment, answers, Releases, receiver-Releases, Leaves, sender-Leaves, Blocks,
  sender-Blocks,
}

-- A file with the line "a".
abbrev input : List Text
input = (b'a' ∷ 10 ∷ []) ∷ []

abbrev got : List Message
got =
    record { m_type = 1; msg_text = b'a' ∷ [] }
    ∷ record { m_type = 2; msg_text = exit_message }
    ∷ []

-- The receiver has ended, the sender stands before the end of its loop.
abbrev at_end : Exchange
at_end = record {
  box = record {
    ready = true;
    mutex = 1;
    full = 0;
    empty = 1;
    length = 0;
    is_exit = false;
    buffer = [];
  };
  sender = record { pc = s_ready; todo = [] };
  receiver = record { pc = r_done; got = got };
}

memory_run : MemoryRun (messages input) at_end
unfolding initialised payload_size sender_step bounded receiver_step messages copy_text text_eq
    cut_line
memory_run =
    receiver_steps
      (receiver_steps
        (receiver_steps
          (receiver_steps
            (receiver_steps
              (receiver_steps
                (receiver_steps
                  (receiver_steps
                    (receiver_steps
                      (sender_steps
                        (sender_steps
                          (sender_steps
                            (sender_steps
                              (sender_steps
                                (sender_steps
                                  (sender_steps
                                    (receiver_steps
                                      (receiver_steps
                                        (receiver_steps
                                          (receiver_steps
                                            (receiver_steps
                                              (sender_steps
                                                (receiver_steps
                                                  (receiver_steps
                                                    (receiver_steps
                                                      (receiver_steps
                                                        (sender_steps
                                                          (sender_steps
                                                            (sender_steps
                                                            (sender_steps
                                                            (sender_steps
                                                            (sender_steps
                                                            (sender_steps
                                                            (sender_steps
                                                            (receiver_steps receiver_creates refl)
                                                            refl)
                                                            refl)
                                                            refl)
                                                            refl)
                                                            refl)
                                                            refl)
                                                            refl)
                                                          refl)
                                                        refl)
                                                      refl)
                                                    refl)
                                                  refl)
                                                refl)
                                              refl)
                                            refl)
                                          refl)
                                        refl)
                                      refl)
                                    refl)
                                  refl)
                                refl)
                              refl)
                            refl)
                          refl)
                        refl)
                      refl)
                    refl)
                  refl)
                refl)
              refl)
            refl)
          refl)
        refl)
      refl

memory_complete_example : texts got ≡ lines_to_send input ++ exit_message ∷ []
unfolding text_eq cut_line
memory_complete_example = memory_complete input at_end ((omega arith, refl), tt) memory_run refl

memory_order_example : IsPrefix (texts got) (texts (messages input))
memory_order_example = memory_order input at_end memory_run

memory_exclusion_example : (s_critical at_end.sender.pc && r_critical at_end.receiver.pc) ≡ false
memory_exclusion_example = memory_exclusion input at_end memory_run

-- The receiver creates the mailbox.
abbrev at_start : Exchange
at_start = record {
  box = record {
    ready = false;
    mutex = 0;
    full = 0;
    empty = 0;
    length = 0;
    is_exit = false;
    buffer = [];
  };
  sender = record { pc = s_ready; todo = messages input };
  receiver = record { pc = r_create; got = [] };
}

memory_progress_example : (at_start.receiver.pc ≡ r_done) ⊎ (can_step at_start ≡ true)
memory_progress_example = memory_progress input at_start receiver_creates

memory_termination_example : steps memory_run ≤ 17 * length (messages input) + 19
memory_termination_example = memory_termination input at_end memory_run

-- A system that takes two messages into the queue.
abbrev two_places : List Message → ℕ → Bool
two_places queue size = ltb (length queue) 2

abbrev queue_at_end : QueueExchange
queue_at_end = record { queue = []; todo = []; pc = q_done; got = got }

queue_run : QueueRun two_places (messages input) queue_at_end
unfolding queued_size queued received receive_step send_step messages copy_text text_eq cut_line
queue_run =
    receives (receives (receives (receives (sends (sends queue_starts refl) refl) refl) refl) refl)
      refl

queue_delivery_example : texts got ≡ texts (up_to_exit (messages input))
queue_delivery_example = queue_delivery two_places input queue_at_end queue_run refl

abbrev queue_at_start : QueueExchange
queue_at_start = record { queue = []; todo = messages input; pc = q_receive; got = [] }

queue_progress_example :
    (queue_at_start.pc ≡ q_done) ⊎ (queue_can_step two_places queue_at_start ≡ true)
queue_progress_example = queue_progress two_places input queue_at_start (λ n h. refl) queue_starts

-- The second `sem_init` of the receiver fails.
receiver-Releases_example : Releases true (absent true) (
    receiver_main
      (answers true true true true true true false true true true true)
      shared_mem
      (absent true))
receiver-Releases_example =
    receiver-Releases (answers true true true true true true false true true true true)
      (absent true) (without_segment true)

-- The input file cannot be opened.
sender-Leaves_example : Leaves true (absent false) (
    sender_main
      (answers true true true true true true true true false true true)
      shared_mem
      (absent false))
sender-Leaves_example =
    sender-Leaves true true true true false true true (absent false) (without_segment false)

-- The first `sem_init` of the sender fails.
sender-Blocks_example : Blocks (answers true true true true true true true true true true true) (
    sender_main
      (answers true true true true true false true true true true true)
      shared_mem
      (absent false))
sender-Blocks_example =
    sender-Blocks false true true true false true true true true true true true true true true true
      true true refl
