-- ===== src/Mailbox/Delivery.antt =====
-- lab1/sender.c and lab1/receiver.c: from the lines of the input file to what the receiver prints, through
-- either mailbox.
use ncku_operating_system.Base.{
  ℕ, ◌-◌, ◌<◌, ◌≤◌, ◌≡◌, refl, Bool, false, Bool-cases, inl, inr, List, [], ◌∷◌, ◌++◌, arith,
  if◌then◌else◌, Text, text_eq, cut_line, length, All, ap, sym, ◌∙◌, ◌==◌,
}
use ncku_operating_system.Mailbox.Message.{
  text_size, Message, copy_text, exit_message, exit_token, end_of_file, messages, is_exit_text,
  up_to_exit,
}
use ncku_operating_system.Mailbox.Texts.{texts, take-long}
use ncku_operating_system.Mailbox.Memory.{Exchange, MemoryRun, r_done}
use ncku_operating_system.Mailbox.Memory.Laws.{memory_delivery}
use ncku_operating_system.Mailbox.Queue.{QueueExchange, QueueRun, q_done}
use ncku_operating_system.Mailbox.Queue.Laws.{queue_delivery}

-- For every input, every rule by which the system takes messages into the queue and all orders of steps:
-- when the receivers have ended, the one with the message queue and the one with the shared memory have
-- received the same texts.
pub mailboxes_agree :
    (has_room : List Message → ℕ → Bool) (input : List Text) (e : Exchange) (f : QueueExchange)
    → MemoryRun (messages input) e
    → QueueRun has_room (messages input) f
    → e.receiver.pc ≡ r_done
    → f.pc ≡ q_done
    → texts e.receiver.got ≡ texts f.got
mailboxes_agree has_room input e f run run' done done' =
    memory_delivery input e run done ∙ sym (queue_delivery has_room input f run' done')

-- The lines in front of the first line "EOF".
abbrev pub lines_to_send : List Text → List Text
lines_to_send [] = []
lines_to_send (buffer ∷ input) =
    let rest = lines_to_send input in
    if text_eq (cut_line buffer) end_of_file then [] else cut_line buffer ∷ rest

-- A line as `fgets` reads it, at most 1023 bytes, that is not the text of the exit message.
abbrev pub IsLine : Text → Type 0
IsLine buffer = (length buffer < text_size) × (is_exit_text (cut_line buffer) ≡ false)

cut_line-le : (buffer : Text) → length (cut_line buffer) ≤ length buffer
unfolding cut_line
cut_line-le [] = omega arith
cut_line-le (c ∷ buffer) = elim (Bool-cases (c == 10)) [
  | inl e ↦ rw e (omega arith)
  | inr e ↦ rw e (omega (arith, cut_line-le buffer))
]

copy_text-line :
    (buffer : Text) → length buffer < text_size → copy_text (cut_line buffer) ≡ cut_line buffer
unfolding copy_text
copy_text-line buffer h =
    take-long (text_size - 1) (cut_line buffer) (omega (arith, h, cut_line-le buffer))

exit_only : texts (up_to_exit (exit_token ∷ [])) ≡ exit_message ∷ []
unfolding up_to_exit text_eq copy_text
exit_only = refl

pub texts-messages :
    (input : List Text)
    → All IsLine input
    → texts (up_to_exit (messages input)) ≡ lines_to_send input ++ exit_message ∷ []
unfolding messages up_to_exit
texts-messages [] h = exit_only
texts-messages (buffer ∷ input) h = elim (Bool-cases (text_eq (cut_line buffer) end_of_file)) [
  | inl e ↦ rw e exit_only
  | inr e ↦
      rw (e, copy_text-line buffer h.0.0, h.0.1)
        (ap (λ ts. cut_line buffer ∷ ts) (texts-messages input h.1))
]

-- For every input whose lines are as `fgets` reads them and none is the text of the exit message, and every
-- order of the steps: when the receiver has ended, it has received the lines in front of the first line
-- "EOF", each without its newline, and the exit message, through the shared memory.
pub memory_complete :
    (input : List Text) (e : Exchange)
    → All IsLine input
    → MemoryRun (messages input) e
    → e.receiver.pc ≡ r_done
    → texts e.receiver.got ≡ lines_to_send input ++ exit_message ∷ []
memory_complete input e h run done = memory_delivery input e run done ∙ texts-messages input h
