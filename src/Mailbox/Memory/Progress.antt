-- ===== src/Mailbox/Memory/Progress.antt =====
-- lab1/sender.c and lab1/receiver.c: the two processes exclude each other, do not wait for each other, and
-- come to an end.
use ncku_operating_system.Base.{
  ℕ, zero, suc, ◌≡◌, ◌≤◌, refl, Bool, true, false, ◌&&◌, ◌||◌, inl, inr, ◌⊎◌, List, [], ◌∷◌, ◌++◌,
  map, none, some, arith, ◌==◌, Text, All, ap, sym, ◌∙◌, subst,
}
use mathlib.Core.List.{append-nil}
use ncku_operating_system.Mailbox.Message.{Message, messages}
use ncku_operating_system.Mailbox.Memory.{
  ShmMailbox, SenderPc, s_create, s_ready, s_empty, s_mutex, s_buffer, s_length, s_is_exit,
  s_post_mutex, s_post_full, s_done, sem_wait, Sender, sender_step, ReceiverPc, r_create, r_ready,
  r_full, r_mutex, r_length, r_done, r_copy, r_clear, r_post_mutex, r_post_empty, r_check,
  receiver_step, Exchange, MemoryRun,
}
use ncku_operating_system.Mailbox.Memory.Invariant.{
  delivered, s_token, s_inside, r_inside, IsLive, buffered, empty_slot,
}
use ncku_operating_system.Mailbox.Memory.Texts.{messages-IsKept}
use ncku_operating_system.Mailbox.Steps.{is_some, or_left, or_right}
use ncku_operating_system.Mailbox.Texts.{IsPlain, messages-HasHead, way-end}
use ncku_operating_system.Mailbox.Memory.Laws.{MemoryRun-IsReached}

-- Between `sem_wait(mutex)` and `sem_post(mutex)`.
abbrev pub s_critical : SenderPc → Bool
s_critical pc = s_inside pc == 1

abbrev pub r_critical : ReceiverPc → Bool
r_critical pc = r_inside pc == 1

-- For every input, the two processes are never both in their critical sections.
pub memory_exclusion :
    (input : List Text) (e : Exchange)
    → MemoryRun (messages input) e
    → (s_critical e.sender.pc && r_critical e.receiver.pc) ≡ false
memory_exclusion input e run =
    elim (MemoryRun-IsReached (messages input) e (messages-HasHead input) run) [
      | inl (f, g, h) ↦ rw (g) refl
      | inr (inl (f, g, h)) ↦ rw (g) refl
      | inr (inr v) ↦ ground (arith, v.one)
    ]

-- One of the two processes can take a step.
abbrev pub can_step : Exchange → Bool
can_step e =
    is_some (sender_step e.sender.pc e.sender.todo e.box)
    || is_some (receiver_step e.receiver.pc e.receiver.got e.box)

wait_some :
    {S : Type 0} (n : ℕ) (s : ℕ → ShmMailbox × S)
    → 1 ≤ n
    → is_some (elim (sem_wait n) [ none ↦ none | some k ↦ some (s k) ]) ≡ true
wait_some zero s e = absurd (omega (arith, e))
wait_some (suc n) s e = refl

inside-le-token : (pc : SenderPc) → s_inside pc ≤ s_token pc
inside-le-token s_create = omega arith
inside-le-token s_ready = omega arith
inside-le-token s_empty = omega arith
inside-le-token s_mutex = omega arith
inside-le-token s_buffer = omega arith
inside-le-token s_length = omega arith
inside-le-token s_is_exit = omega arith
inside-le-token s_post_mutex = omega arith
inside-le-token s_post_full = omega arith
inside-le-token s_done = omega arith

-- Where the receiver waits for a message, the sender can go on.
sender_can_step :
    (input : List Text) (box : ShmMailbox) (pc : SenderPc) (todo got : List Message)
    → box.full ≡ 0
    → IsLive
        (messages input)
        box
        (record { pc = pc; todo = todo })
        (record { pc = r_full; got = got })
    → is_some (sender_step pc todo box) ≡ true
unfolding sender_step
sender_can_step input box s_create todo got e v = absurd v.sending
sender_can_step input box s_ready [] got e v = refl
sender_can_step input box s_ready (m ∷ todo) got e v = simp (v.is_ready) refl
sender_can_step input box s_empty todo got e v = wait_some box.empty _ (omega (arith, v.tokens, e))
sender_can_step input box s_mutex todo got e v = wait_some box.mutex _ (omega (arith, v.one))
sender_can_step input box s_buffer [] got e v = absurd v.sending
sender_can_step input box s_buffer (m ∷ todo) got e v = refl
sender_can_step input box s_length [] got e v = absurd v.sending
sender_can_step input box s_length (m ∷ todo) got e v = refl
sender_can_step input box s_is_exit [] got e v = absurd v.sending
sender_can_step input box s_is_exit (m ∷ todo) got e v = refl
sender_can_step input box s_post_mutex todo got e v = refl
sender_can_step input box s_post_full [] got e v = absurd v.sending
sender_can_step input box s_post_full (m ∷ todo) got e v = refl
sender_can_step input box s_done todo got e v =
    let nothing : buffered box r_full ≡ [] = empty_slot box.full r_full _ (omega (arith, e)) in
    let all : got ≡ map delivered (messages input) =
      sym (append-nil got)
      ∙ ap (λ bs. got ++ bs)
          (sym nothing
            ∙ sym (append-nil (buffered box r_full))
            ∙ ap (λ ms. buffered box r_full ++ map delivered ms) (sym v.sending))
      ∙ v.stream in
    absurd (way-end delivered input (messages-IsKept input) (subst (All IsPlain) all v.receiving))

receiver_waits :
    (input : List Text) (box : ShmMailbox) (s : Sender) (got : List Message) (full : ℕ)
    → box.full ≡ full
    → IsLive (messages input) box s (record { pc = r_full; got = got })
    → can_step (record { box = box; sender = s; receiver = record { pc = r_full; got = got } })
      ≡ true
unfolding receiver_step
receiver_waits input box s got zero e v =
    or_left _ _ (sender_can_step input box s.pc s.todo got e v)
receiver_waits input box s got (suc n) e v =
    or_right _ (is_some (receiver_step r_full got box)) (wait_some box.full _ (omega (arith, e)))

live_can_step :
    (input : List Text) (box : ShmMailbox) (s : Sender) (pc : ReceiverPc) (got : List Message)
    → IsLive (messages input) box s (record { pc = pc; got = got })
    → (pc ≡ r_done)
      ⊎ (can_step (record { box = box; sender = s; receiver = record { pc = pc; got = got } })
          ≡ true)
unfolding receiver_step
live_can_step input box s r_create got v = absurd v.receiving
live_can_step input box s r_ready got v =
    inr (or_right _ (is_some (receiver_step r_ready got box)) (simp (v.is_ready) refl))
live_can_step input box s r_full got v = inr (receiver_waits input box s got box.full refl v)
live_can_step input box s r_mutex got v =
    inr
      (or_right _ _ (wait_some box.mutex _ (omega (arith, v.one, v.tokens, inside-le-token s.pc))))
live_can_step input box s r_length got v = inr (or_right _ _ refl)
live_can_step input box s (r_copy n) got v = inr (or_right _ _ refl)
live_can_step input box s (r_clear m) got v = inr (or_right _ _ refl)
live_can_step input box s (r_post_mutex m) got v = inr (or_right _ _ refl)
live_can_step input box s (r_post_empty m) got v = inr (or_right _ _ refl)
live_can_step input box s (r_check m) got v = inr (or_right _ _ refl)
live_can_step input box s r_done got v = inl refl

-- For every input and in every state that the two processes reach, the receiver has ended or one of the
-- two can take a step: they never wait for each other.
pub memory_progress :
    (input : List Text) (e : Exchange)
    → MemoryRun (messages input) e
    → (e.receiver.pc ≡ r_done) ⊎ (can_step e ≡ true)
unfolding receiver_step sender_step
memory_progress input e run =
    elim (MemoryRun-IsReached (messages input) e (messages-HasHead input) run) [
      | inl (f, g, h) ↦ inr (rw (g) refl)
      | inr (inl (f, g, h)) ↦
          inr
            (or_right _ (is_some (receiver_step e.receiver.pc e.receiver.got e.box)) (rw (h) refl))
      | inr (inr v) ↦ live_can_step input e.box e.sender e.receiver.pc e.receiver.got v
    ]
