-- ===== src/Mailbox/Memory/Texts.antt =====
-- lab1/sender.c and lab1/receiver.c: the messages that come out of the shared memory are those that the
-- sender makes of its input, none of them cut.
use ncku_operating_system.Base.{◌≡◌, false, List, arith, leb, Text, length, All, All-mono}
use ncku_operating_system.Mailbox.Message.{text_size, Message, messages}
use ncku_operating_system.Mailbox.Texts.{take-long, IsKept, IsShort, messages-IsShort}
use ncku_operating_system.Mailbox.Memory.{payload_size}
use ncku_operating_system.Mailbox.Memory.Invariant.{delivered}

delivered-IsKept : (m : Message) → IsShort m → IsKept delivered m
unfolding payload_size
delivered-IsKept m short =
    let size : leb text_size (length m.msg_text) ≡ false = ground (arith, short) in
    rw size (take-long (length m.msg_text) m.msg_text (omega arith))

pub messages-IsKept : (input : List Text) → All (IsKept delivered) (messages input)
messages-IsKept input = All-mono IsShort (messages input) delivered-IsKept (messages-IsShort input)
