-- ===== src/Mailbox/Message.antt =====
-- lab1/sender.h and lab1/sender.c: messages, and the messages that the sender makes of its input.
use ncku_operating_system.Base.{
  ℕ, ◌-◌, Bool, List, [], ◌∷◌, if◌then◌else◌, Text, text_eq, cut_line, take,
}

-- `sizeof(message.msgText)`, and of the buffer in the shared memory.
abbrev pub text_size : ℕ
text_size = 1024

-- `EXIT_MESSAGE`: "__IPC_EXIT__".
abbrev pub exit_message : Text
exit_message =
    b'_' ∷ b'_' ∷ b'I' ∷ b'P' ∷ b'C' ∷ b'_' ∷ b'E' ∷ b'X' ∷ b'I' ∷ b'T' ∷ b'_' ∷ b'_' ∷ []

abbrev pub end_of_file : Text
end_of_file = b'E' ∷ b'O' ∷ b'F' ∷ []

-- `message_t`. The array `msgText` is given by its string; no code reads behind the NUL.
pub record Message : Type 0 where
  pub m_type : ℕ
  pub msg_text : Text

-- `strncpy(message.msgText, text, sizeof(message.msgText) - 1)` and the NUL behind it.
unfoldable pub copy_text : Text → Text
copy_text text = take (text_size - 1) text

abbrev pub exit_token : Message
unfolding copy_text
exit_token = record { m_type = 2; msg_text = copy_text exit_message }

-- The messages that the loop of the sender's `main` sends, given what `fgets` reads from the input file:
-- one for each line up to a line "EOF" or the end of the file, and the exit message.
unfoldable pub messages : (input : List Text) → List Message
messages [] = exit_token ∷ []
messages (buffer ∷ input) =
    let rest = messages input in
    let line = cut_line buffer in
    if text_eq line end_of_file
    then exit_token ∷ []
    else record { m_type = 1; msg_text = copy_text line } ∷ rest

-- `strcmp(message.msgText, EXIT_MESSAGE) == 0`.
abbrev pub is_exit_text : Text → Bool
is_exit_text text = text_eq text exit_message

-- What the receiver takes of the messages it is sent: it stops behind the first exit message.
unfoldable pub up_to_exit : List Message → List Message
up_to_exit [] = []
up_to_exit (m ∷ ms) =
    let rest = up_to_exit ms in if is_exit_text m.msg_text then m ∷ [] else m ∷ rest
