-- ===== src/Mailbox/Texts.antt =====
-- lab1/sender.c and lab1/receiver.c: the texts of the messages that the sender makes, and of messages that
-- keep their texts on their way.
use ncku_operating_system.Base.{
  ℕ, zero, suc, ◌-◌, ◌<◌, ◌≤◌, ◌≡◌, refl, Bool, true, false, Bool-cases, inl, inr, List, [], ◌∷◌,
  ◌++◌, map, arith, if◌then◌else◌, Text, text_eq, cut_line, take, length, length-take, All, ap, sym,
  ◌∙◌, subst,
}
use mathlib.Core.List.{append_assoc}
use ncku_operating_system.Mailbox.Message.{
  text_size, Message, copy_text, exit_message, exit_token, end_of_file, messages, is_exit_text,
  up_to_exit,
}

abbrev pub texts : List Message → List Text
texts ms = map (λ m. m.msg_text) ms

abbrev pub IsPrefix : List Text → List Text → Type 0
IsPrefix xs ys = (rest : List Text) × (xs ++ rest ≡ ys)

pub length-texts : (ms : List Message) → length (texts ms) ≡ length ms
length-texts [] = refl
length-texts (m ∷ ms) = omega (arith, length-texts ms)

pub texts-append : (xs ys : List Message) → texts (xs ++ ys) ≡ texts xs ++ texts ys
texts-append [] ys = refl
texts-append (x ∷ xs) ys = ap (λ ts. x.msg_text ∷ ts) (texts-append xs ys)

pub take-take : (n : ℕ) (xs : Text) → take n (take n xs) ≡ take n xs
take-take zero xs = refl
take-take (suc n) [] = refl
take-take (suc n) (x ∷ xs) = ap (λ ys. x ∷ ys) (take-take n xs)

pub take-long : (n : ℕ) (xs : Text) → length xs ≤ n → take n xs ≡ xs
take-long zero [] h = refl
take-long (suc n) [] h = refl
take-long zero (x ∷ xs) h = absurd (omega (arith, h))
take-long (suc n) (x ∷ xs) h = ap (λ ys. x ∷ ys) (take-long n xs (omega (arith, h)))

-- The text and its NUL fit in the array of the message.
abbrev pub IsShort : Message → Type 0
IsShort m = length m.msg_text < text_size

copy_text-IsShort : (xs : Text) → length (copy_text xs) < text_size
unfolding copy_text
copy_text-IsShort xs = omega (arith, length-take (text_size - 1) xs)

pub messages-IsShort : (input : List Text) → All IsShort (messages input)
unfolding messages copy_text
messages-IsShort [] = (copy_text-IsShort exit_message, tt)
messages-IsShort (buffer ∷ input) = elim (Bool-cases (text_eq (cut_line buffer) end_of_file)) [
  | inl e ↦ rw e (copy_text-IsShort exit_message, tt)
  | inr e ↦ rw e (copy_text-IsShort (cut_line buffer), messages-IsShort input)
]

abbrev pub HasHead : List Message → (Message → Type 0) → Type 0
HasHead [] P = ⊥
HasHead (m ∷ ms) P = P m

pub messages-HasHead : (input : List Text) → HasHead (messages input) (λ m. Unit)
unfolding messages
messages-HasHead [] = tt
messages-HasHead (buffer ∷ input) = elim (Bool-cases (text_eq (cut_line buffer) end_of_file)) [
  | inl e ↦ rw e tt
  | inr e ↦ rw e tt
]

abbrev pub IsPlain : Message → Type 0
IsPlain m = is_exit_text m.msg_text ≡ false

exit_token-is-exit : is_exit_text exit_token.msg_text ≡ true
unfolding copy_text text_eq
exit_token-is-exit = refl

-- Among the messages of the sender there is an exit message.
messages-end : (input : List Text) → All IsPlain (messages input) → ⊥
unfolding messages
messages-end [] plain = absurd (cc (plain.0, exit_token-is-exit))
messages-end (buffer ∷ input) plain =
    let line = cut_line buffer in
    let cases : (b : Bool)
        → All IsPlain (
            if b
            then exit_token ∷ []
            else record { m_type = 1; msg_text = copy_text line } ∷ messages input)
        → ⊥ =
      λ b.
        elim b
          as (λ b.
            All IsPlain (
              if b
              then exit_token ∷ []
              else record { m_type = 1; msg_text = copy_text line } ∷ messages input)
            → ⊥) [
              | true ↦ λ p. absurd (cc (p.0, exit_token-is-exit))
              | false ↦ λ p. messages-end input p.1
            ] in
    cases (text_eq line end_of_file) plain

-- Up to the first exit message.
pub up_to_exit-at :
    (before : List Message) (last : Message) (rest : List Message)
    → All IsPlain before
    → is_exit_text last.msg_text ≡ true
    → up_to_exit (before ++ last ∷ rest) ≡ before ++ last ∷ []
unfolding up_to_exit
up_to_exit-at [] last rest plain e = rw e refl
up_to_exit-at (m ∷ ms) last rest plain e =
    rw plain.0 (ap (λ xs. m ∷ xs) (up_to_exit-at ms last rest plain.1 e))

-- What the receiver has received at its end: plain messages and an exit message.
abbrev pub IsEnded : List Message → Type 0
IsEnded got =
    (before : List Message) × (last : Message) × (got ≡ before ++ last ∷ [])
    × All IsPlain before
    × (is_exit_text last.msg_text ≡ true)

pub IsEnded-up_to_exit :
    (got rest ms : List Message) → IsEnded got → got ++ rest ≡ ms → got ≡ up_to_exit ms
IsEnded-up_to_exit got rest ms (before, last, split, plain, exit) e =
    let whole : before ++ last ∷ rest ≡ ms =
      sym (append_assoc before (last ∷ []) rest) ∙ ap (λ g. g ++ rest) (sym split) ∙ e in
    split ∙ sym (up_to_exit-at before last rest plain exit) ∙ ap up_to_exit whole

-- `way` is what becomes of a message on its way.
module _ (way : Message → Message) where
  abbrev pub IsKept : Message → Type 0
  IsKept m = (way m).msg_text ≡ m.msg_text

  pub texts-way : (ms : List Message) → All IsKept ms → texts (map way ms) ≡ texts ms
  texts-way [] w = refl
  texts-way (m ∷ ms) w = rw (w.0, texts-way ms w.1) refl

  pub texts-up_to_exit :
      (ms : List Message) → All IsKept ms → texts (up_to_exit (map way ms)) ≡ texts (up_to_exit ms)
  unfolding up_to_exit
  texts-up_to_exit [] w = refl
  texts-up_to_exit (m ∷ ms) w = rw w.0 (elim (Bool-cases (is_exit_text m.msg_text)) [
    | inl e ↦ rw e refl
    | inr e ↦ rw e (ap (λ ts. m.msg_text ∷ ts) (texts-up_to_exit ms w.1))
  ])

  IsPlain-before : (ms : List Message) → All IsKept ms → All IsPlain (map way ms) → All IsPlain ms
  IsPlain-before [] w p = tt
  IsPlain-before (m ∷ ms) w p =
      (subst (λ t. is_exit_text t ≡ false) w.0 p.0, IsPlain-before ms w.1 p.1)

  pub way-end :
      (input : List Text) → All IsKept (messages input) → All IsPlain (map way (messages input)) → ⊥
  way-end input w p = messages-end input (IsPlain-before (messages input) w p)
