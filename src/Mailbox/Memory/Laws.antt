-- ===== src/Mailbox/Memory/Laws.antt =====
-- lab1/sender.c and lab1/receiver.c: the states that the two processes reach through the mailbox in shared
-- memory.
use ncku_operating_system.Base.{
  ◌≡◌, refl, inl, inr, ◌⊎◌, List, [], ◌∷◌, ◌++◌, map, Option, none, some, Text, ap, sym, ◌∙◌, subst,
}
use ncku_operating_system.Mailbox.Message.{Message, messages, up_to_exit}
use ncku_operating_system.Mailbox.Memory.{
  ShmMailbox, zeroed, initialised, s_create, s_ready, Sender, sender_step, ReceiverPc, r_create,
  r_ready, r_full, r_mutex, r_length, r_done, r_copy, r_clear, r_post_mutex, r_post_empty, r_check,
  Receiver, receiver_step, Exchange, MemoryRun, sender_creates, receiver_creates, sender_steps,
  receiver_steps,
}
use ncku_operating_system.Mailbox.Memory.Invariant.{delivered, local, buffered, IsLive}
use ncku_operating_system.Mailbox.Memory.SenderSteps.{SenderLeads, sender_step-IsLive}
use ncku_operating_system.Mailbox.Memory.ReceiverSteps.{ReceiverLeads, receiver_step-IsLive}
use ncku_operating_system.Mailbox.Memory.Texts.{messages-IsKept}
use ncku_operating_system.Mailbox.Texts.{
  HasHead, IsPrefix, texts, texts-append, messages-HasHead, texts-way, texts-up_to_exit,
  IsEnded-up_to_exit,
}

-- The invariant of all reachable states: one of the processes is about to create the mailbox, or it is
-- there.
abbrev pub IsReached : List Message → ShmMailbox → Sender → Receiver → Type 0
IsReached ms box s r =
    ((box ≡ zeroed)
      × (s ≡ record { pc = s_create; todo = ms })
      × (r ≡ record { pc = r_ready; got = [] }))
    ⊎ (((box ≡ zeroed)
          × (s ≡ record { pc = s_ready; todo = ms })
          × (r ≡ record { pc = r_create; got = [] }))
        ⊎ IsLive ms box s r)

abbrev SenderReaches : List Message → Receiver → Option (ShmMailbox × Sender) → Type 0
SenderReaches ms r none = Unit
SenderReaches ms r (some (box', s')) = IsReached ms box' s' r

abbrev ReceiverReaches : List Message → Sender → Option (ShmMailbox × Receiver) → Type 0
ReceiverReaches ms s none = Unit
ReceiverReaches ms s (some (box', r')) = IsReached ms box' s r'

first :
    (ms : List Message)
    → IsLive ms
        (initialised zeroed)
        (record { pc = s_ready; todo = ms })
        (record { pc = r_ready; got = [] })
unfolding initialised
first ms = record {
  is_ready = refl;
  tokens = refl;
  one = refl;
  sending = tt;
  receiving = tt;
  stream = refl;
}

sender-leads :
    (ms : List Message) (r : Receiver) (o : Option (ShmMailbox × Sender))
    → SenderLeads ms r o
    → SenderReaches ms r o
sender-leads ms r none v = tt
sender-leads ms r (some (box', s')) v = inr (inr v)

receiver-leads :
    (ms : List Message) (s : Sender) (o : Option (ShmMailbox × Receiver))
    → ReceiverLeads ms s o
    → ReceiverReaches ms s o
receiver-leads ms s none v = tt
receiver-leads ms s (some (box', r')) v = inr (inr v)

sender_step-IsReached :
    (ms : List Message) (box : ShmMailbox) (s : Sender) (r : Receiver)
    → HasHead ms (λ m. Unit)
    → IsReached ms box s r
    → SenderReaches ms r (sender_step s.pc s.todo box)
unfolding sender_step
sender_step-IsReached ms box s r h (inl (e, f, g)) = rw (e, f, g) (inr (inr (first ms)))
sender_step-IsReached [] box s r h (inr (inl (e, f, g))) = absurd h
sender_step-IsReached (m ∷ ms) box s r h (inr (inl (e, f, g))) = rw (e, f) tt
sender_step-IsReached ms box s r h (inr (inr v)) =
    sender-leads ms r _ (sender_step-IsLive ms s.pc s.todo box r v)

receiver_step-IsReached :
    (ms : List Message) (box : ShmMailbox) (s : Sender) (r : Receiver)
    → IsReached ms box s r
    → ReceiverReaches ms s (receiver_step r.pc r.got box)
unfolding receiver_step
receiver_step-IsReached ms box s r (inl (e, f, g)) = rw (e, f, g) tt
receiver_step-IsReached ms box s r (inr (inl (e, f, g))) = rw (e, f, g) (inr (inr (first ms)))
receiver_step-IsReached ms box s r (inr (inr v)) =
    receiver-leads ms s _ (receiver_step-IsLive ms r.pc r.got box s v)

pub MemoryRun-IsReached :
    (ms : List Message) (e : Exchange)
    → HasHead ms (λ m. Unit)
    → MemoryRun ms e
    → IsReached ms e.box e.sender e.receiver
MemoryRun-IsReached ms e h sender_creates = inl (refl, refl, refl)
MemoryRun-IsReached ms e h receiver_creates = inr (inl (refl, refl, refl))
MemoryRun-IsReached ms e h (sender_steps {box} {box'} {s} {s'} {r} run step) =
    subst (SenderReaches ms r) step
      (sender_step-IsReached ms box s r h (MemoryRun-IsReached ms _ h run))
MemoryRun-IsReached ms e h (receiver_steps {box} {box'} {s} {r} {r'} run step) =
    subst (ReceiverReaches ms s) step
      (receiver_step-IsReached ms box s r (MemoryRun-IsReached ms _ h run))

is_live :
    (ms : List Message) (box : ShmMailbox) (s : Sender) (pc : ReceiverPc) (got : List Message)
    → pc ≡ r_done
    → IsReached ms box s (record { pc = pc; got = got })
    → IsLive ms box s (record { pc = pc; got = got })
is_live ms box s pc got e (inl (f, g, h)) = absurd (cc)
is_live ms box s pc got e (inr (inl (f, g, h))) = absurd (cc)
is_live ms box s pc got e (inr (inr v)) = v

-- At the end of the receiver it has received what is delivered up to the first exit message.
got_at_end :
    (ms : List Message) (box : ShmMailbox) (s : Sender) (pc : ReceiverPc) (got : List Message)
    → pc ≡ r_done
    → IsLive ms box s (record { pc = pc; got = got })
    → got ≡ up_to_exit (map delivered ms)
got_at_end ms box s r_done got e v =
    IsEnded-up_to_exit got (buffered box r_done ++ map delivered s.todo) (map delivered ms)
      v.receiving v.stream
got_at_end ms box s r_create got e v = absurd (cc)
got_at_end ms box s r_ready got e v = absurd (cc)
got_at_end ms box s r_full got e v = absurd (cc)
got_at_end ms box s r_mutex got e v = absurd (cc)
got_at_end ms box s r_length got e v = absurd (cc)
got_at_end ms box s (r_copy n) got e v = absurd (cc)
got_at_end ms box s (r_clear m) got e v = absurd (cc)
got_at_end ms box s (r_post_mutex m) got e v = absurd (cc)
got_at_end ms box s (r_post_empty m) got e v = absurd (cc)
got_at_end ms box s (r_check m) got e v = absurd (cc)

-- For every input and every order of the steps of the two processes: when the receiver has ended, the
-- texts that it has received are those of the sender's messages up to the first exit message, in order.
pub memory_delivery :
    (input : List Text) (e : Exchange)
    → MemoryRun (messages input) e
    → e.receiver.pc ≡ r_done
    → texts e.receiver.got ≡ texts (up_to_exit (messages input))
memory_delivery input e run done =
    let ms = messages input in
    let v =
      is_live ms e.box e.sender e.receiver.pc e.receiver.got done
        (MemoryRun-IsReached ms e (messages-HasHead input) run) in
    ap texts (got_at_end ms e.box e.sender e.receiver.pc e.receiver.got done v)
    ∙ texts-up_to_exit delivered ms (messages-IsKept input)

-- For every input and in every state that the two processes reach: what the receiver has received is the
-- beginning of what the sender has to send; nothing is lost, repeated or reordered.
pub memory_order :
    (input : List Text) (e : Exchange)
    → MemoryRun (messages input) e
    → IsPrefix (texts e.receiver.got) (texts (messages input))
memory_order input e run =
    let ms = messages input in
    elim (MemoryRun-IsReached ms e (messages-HasHead input) run) [
      | inl (f, g, h) ↦ (texts ms, ap (λ r. texts r.got ++ texts ms) h)
      | inr (inl (f, g, h)) ↦ (texts ms, ap (λ r. texts r.got ++ texts ms) h)
      | inr (inr v) ↦
          let rest =
            local e.receiver.pc ++ (buffered e.box e.receiver.pc ++ map delivered e.sender.todo) in
          (
            texts rest,
            sym (texts-append e.receiver.got rest)
                ∙ ap texts v.stream
                ∙ texts-way delivered ms (messages-IsKept input),
          )
    ]
