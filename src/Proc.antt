-- ===== src/Proc.antt =====
-- lab3/3/3_2/My_Kernel.c: the file /proc/Mythread_info, into which the threads write and from which they
-- read. The kernel's buffer is the list of its bytes: a write behind its end makes the list longer.
pub mod Buffer
pub mod Laws
pub mod Content
pub mod Report
pub mod Threads
pub mod Examples
use ncku_operating_system.Base.{
  ℕ, zero, suc, ◌+◌, ◌-◌, ◌≡◌, Bool, true, false, List, [], ◌∷◌, ◌++◌, ltb, leb, ◌==◌,
  if◌then◌else◌, min, take, drop, length,
}
use ncku_operating_system.Osfs.Types.{Result, ok, err, einval, efault, enospc}

-- `BUFSIZE`.
abbrev pub bufsize : ℕ
bufsize = 1024

-- `strnlen(buf, n)`.
unfoldable pub strnlen : List ℕ → ℕ → ℕ
strnlen [] n = 0
strnlen (c ∷ buf) zero = 0
strnlen (c ∷ buf) (suc n) = let rest = strnlen buf n in if c == 0 then 0 else suc rest

-- The bytes from `position` on are replaced.
unfoldable pub overwrite : List ℕ → (position : ℕ) → List ℕ → List ℕ
overwrite buf position bytes = take position buf ++ (bytes ++ drop (position + length bytes) buf)

-- What `scnprintf` writes into a part of `size` bytes when the format gives `text`.
unfoldable pub scnprintf_bytes : (size : ℕ) → (text : List ℕ) → List ℕ
scnprintf_bytes zero text = []
scnprintf_bytes (suc size) text = take size text ++ 0 ∷ []

-- `n` bytes after `memset` to 0.
unfoldable pub zeros : (n : ℕ) → List ℕ
zeros zero = []
zeros (suc n) = 0 ∷ zeros n

-- The copies of the kernel: how many bytes have not been copied, and from the user the bytes that are in
-- their place then.
pub record UserCopy : Type 0 where
  pub copy_from_user : List ℕ → ℕ
  pub arrived : List ℕ → List ℕ
  pub copy_to_user : List ℕ → ℕ

pub record WriteResult : Type 0 where
  pub result : Result ℕ
  pub buf : List ℕ

-- What a read leaves: its result holds the bytes that have reached the user.
pub record ReadResult : Type 0 where
  pub result : Result (List ℕ)
  pub offset : ℕ
  pub buf : List ℕ

module _ (copy : UserCopy) where
  -- `Mywrite` from the test of the room on; `info` is what the format of the thread's numbers gives.
  unfoldable pub write_at : (info ubuf buf : List ℕ) → (buffer_len copy_len : ℕ) → WriteResult
  write_at info ubuf buf buffer_len copy_len =
      let bytes = take copy_len ubuf in
      let copied = overwrite buf buffer_len (copy.arrived bytes) in
      let end = buffer_len + copy_len in
      let ended = overwrite copied end (0 ∷ []) in
      if copy_len == 0
      then record { result = err enospc; buf = buf }
      else if copy.copy_from_user bytes == 0
      then record {
        result = ok copy_len;
        buf = overwrite ended end (scnprintf_bytes (bufsize - end) info);
      }
      else record { result = err efault; buf = copied }

  unfoldable pub my_write : (info ubuf buf : List ℕ) → WriteResult
  my_write info ubuf buf =
      let buffer_len = strnlen buf bufsize in
      if leb bufsize buffer_len
      then record { result = err enospc; buf = buf }
      else write_at info ubuf buf buffer_len (min (length ubuf) (bufsize - buffer_len - 1))

  unfoldable pub my_read : (buffer_len offset : ℕ) → (buf : List ℕ) → ReadResult
  my_read buffer_len offset buf =
      let data_len = strnlen buf bufsize in
      let text = take data_len buf in
      if ltb 0 offset
      then record { result = ok []; offset = offset; buf = buf }
      else if ltb buffer_len data_len
      then record { result = err einval; offset = offset; buf = buf }
      else if copy.copy_to_user text == 0
      then record { result = ok text; offset = data_len; buf = zeros bufsize }
      else record { result = err efault; offset = offset; buf = buf }
