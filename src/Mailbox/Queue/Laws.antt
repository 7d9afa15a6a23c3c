-- ===== src/Mailbox/Queue/Laws.antt =====
-- lab1/sender.c and lab1/receiver.c: the states that the two processes reach through the message queue.
use ncku_operating_system.Base.{
  ℕ, ◌+◌, ◌-◌, ◌≡◌, ◌≤◌, refl, Bool, true, false, ◌||◌, Bool-cases, inl, inr, ◌⊎◌, List, [], ◌∷◌,
  ◌++◌, map, Option, none, some, arith, ltb, leb, Text, take, length, All, All-append, All-mono, ap,
  sym, ◌∙◌, subst,
}
use mathlib.Core.List.{append_assoc, append-nil, map-append}
use ncku_operating_system.Mailbox.Message.{text_size, Message, messages, is_exit_text, up_to_exit}
use ncku_operating_system.Mailbox.Queue.{
  queued_size, queued, received, QueuePc, q_receive, q_done, q_check, QueueExchange, receive_step,
  send_step, QueueRun, queue_starts, sends, receives,
}
use ncku_operating_system.Mailbox.Texts.{
  IsPrefix, texts, texts-append, take-long, IsKept, IsShort, messages-IsShort, texts-way,
  texts-up_to_exit, IsPlain, IsEnded, IsEnded-up_to_exit, way-end,
}
use ncku_operating_system.Mailbox.Steps.{is_some, or_left, or_right}

-- A message on its way through the queue.
way : Message → Message
way m = received (queued m)

way-IsKept : (m : Message) → IsShort m → IsKept way m
unfolding way received queued queued_size
way-IsKept m short =
    let size : ltb text_size (length m.msg_text + 1) ≡ false = ground (arith, short) in
    let whole : take (length m.msg_text) m.msg_text ≡ m.msg_text =
      take-long (length m.msg_text) m.msg_text (omega arith) in
    rw (size, whole)
      (elim (Bool-cases (leb text_size (length m.msg_text + 1))) [
        | inl full ↦ rw full (take-long (text_size - 1) m.msg_text (omega (arith, short)))
        | inr less ↦ rw less refl
      ])

messages-IsKept : (input : List Text) → All (IsKept way) (messages input)
messages-IsKept input = All-mono IsShort (messages input) way-IsKept (messages-IsShort input)

abbrev checking : QueuePc → List Message
checking (q_check m) = m ∷ []
checking _ = []

abbrev Receiving : QueuePc → List Message → Type 0
Receiving q_done got = IsEnded got
Receiving _ got = All IsPlain got

-- The invariant: the messages received, in the queue and still to be sent are those to be sent at the
-- start, in order.
record IsQueued (ms : List Message) (e : QueueExchange) : Type 0 where
  receiving : Receiving e.pc e.got
  stream : e.got ++ (checking e.pc ++ (map received e.queue ++ map way e.todo)) ≡ map way ms

abbrev Leads : List Message → Option QueueExchange → Type 0
Leads ms none = Unit
Leads ms (some e) = IsQueued ms e

module _ (has_room : List Message → ℕ → Bool) (ms : List Message) where
  send_step-IsQueued :
      (queue todo : List Message) (pc : QueuePc) (got : List Message)
      → IsQueued ms (record { queue = queue; todo = todo; pc = pc; got = got })
      → Leads ms (send_step has_room queue todo pc got)
  unfolding send_step way
  send_step-IsQueued queue [] pc got v = tt
  send_step-IsQueued queue (m ∷ todo) pc got v =
      elim (Bool-cases (has_room queue (queued_size m.msg_text + 1))) [
        | inl e ↦ rw e (record {
          receiving = v.receiving;
          stream =
              (let moved : map received (queue ++ queued m ∷ []) ++ map way todo
                    ≡ map received queue ++ map way (m ∷ todo) =
                  ap (λ q. q ++ map way todo) (map-append received queue (queued m ∷ []))
                  ∙ append_assoc (map received queue) (way m ∷ []) (map way todo) in
                ap (λ q. got ++ (checking pc ++ q)) moved ∙ v.stream);
        })
        | inr e ↦ rw e tt
      ]

  receive_step-IsQueued :
      (queue todo : List Message) (pc : QueuePc) (got : List Message)
      → IsQueued ms (record { queue = queue; todo = todo; pc = pc; got = got })
      → Leads ms (receive_step queue todo pc got)
  unfolding receive_step
  receive_step-IsQueued [] todo q_receive got v = tt
  receive_step-IsQueued (m ∷ queue) todo q_receive got v = record {
    receiving = v.receiving;
    stream = v.stream;
  }
  receive_step-IsQueued queue todo (q_check m) got v = elim (Bool-cases (is_exit_text m.msg_text)) [
    | inl exit ↦ rw exit (record {
      receiving = (got, m, refl, v.receiving, exit);
      stream = append_assoc got (m ∷ []) _ ∙ v.stream;
    })
    | inr plain ↦ rw plain (record {
      receiving = All-append IsPlain got (m ∷ []) v.receiving (plain, tt);
      stream = append_assoc got (m ∷ []) _ ∙ v.stream;
    })
  ]
  receive_step-IsQueued queue todo q_done got v = tt

  QueueRun-IsQueued : (e : QueueExchange) → QueueRun has_room ms e → IsQueued ms e
  QueueRun-IsQueued e queue_starts = record { receiving = tt; stream = refl }
  QueueRun-IsQueued e (sends {e = d} run step) =
      subst (Leads ms) step (send_step-IsQueued d.queue d.todo d.pc d.got (QueueRun-IsQueued d run))
  QueueRun-IsQueued e (receives {e = d} run step) =
      subst (Leads ms) step
        (receive_step-IsQueued d.queue d.todo d.pc d.got (QueueRun-IsQueued d run))

ended : (pc : QueuePc) (got : List Message) → pc ≡ q_done → Receiving pc got → IsEnded got
ended q_done got e v = v
ended q_receive got e v = absurd (cc)
ended (q_check m) got e v = absurd (cc)

module _ (has_room : List Message → ℕ → Bool) where
  -- For every input, every order of the calls of the two processes and every rule by which the system takes
  -- messages into the queue: when the receiver has ended, the texts that it has received are those of the
  -- sender's messages up to the first exit message, in order.
  pub queue_delivery :
      (input : List Text) (e : QueueExchange)
      → QueueRun has_room (messages input) e
      → e.pc ≡ q_done
      → texts e.got ≡ texts (up_to_exit (messages input))
  queue_delivery input e run done =
      let ms = messages input in
      let v = QueueRun-IsQueued has_room ms e run in
      ap texts
        (IsEnded-up_to_exit e.got _ (map way ms) (ended e.pc e.got done v.receiving) v.stream)
      ∙ texts-up_to_exit way ms (messages-IsKept input)

  -- For every input, in every state that the two processes reach, and every rule by which the system takes
  -- messages into the queue: what the receiver has received is the beginning of what the sender has to send.
  pub queue_order :
      (input : List Text) (e : QueueExchange)
      → QueueRun has_room (messages input) e
      → IsPrefix (texts e.got) (texts (messages input))
  queue_order input e run =
      let ms = messages input in
      let v = QueueRun-IsQueued has_room ms e run in
      let rest = checking e.pc ++ (map received e.queue ++ map way e.todo) in
      (
        texts rest,
        sym (texts-append e.got rest)
            ∙ ap texts v.stream
            ∙ texts-way way ms (messages-IsKept input),
      )

  abbrev pub queue_can_step : QueueExchange → Bool
  queue_can_step e =
      is_some (send_step has_room e.queue e.todo e.pc e.got)
      || is_some (receive_step e.queue e.todo e.pc e.got)

  waits_not :
      (input : List Text) (queue todo : List Message) (pc : QueuePc) (got : List Message)
      → ((n : ℕ) → n ≤ text_size → has_room [] n ≡ true)
      → IsQueued (messages input) (record { queue = queue; todo = todo; pc = pc; got = got })
      → (pc ≡ q_done)
        ⊎ (queue_can_step (record { queue = queue; todo = todo; pc = pc; got = got }) ≡ true)
  unfolding send_step receive_step queued_size
  waits_not input queue todo q_done got room v = inl refl
  waits_not input queue todo (q_check m) got room v = inr (or_right _ _ refl)
  waits_not input (m ∷ queue) todo q_receive got room v = inr (or_right _ _ refl)
  waits_not input [] (m ∷ todo) q_receive got room v =
      let small : queued_size m.msg_text + 1 ≤ text_size = ground arith in
      inr (
        or_left (is_some (send_step has_room [] (m ∷ todo) q_receive got)) _
          (rw (room (queued_size m.msg_text + 1) small) refl))
  waits_not input [] [] q_receive got room v =
      let all : got ≡ map way (messages input) = sym (append-nil got) ∙ v.stream in
      absurd (way-end way input (messages-IsKept input) (subst (All IsPlain) all v.receiving))

  -- For every input and in every state that the two processes reach: the receiver has ended or one of the two
  -- can take a step, if the system takes a message of at most 1024 bytes into an empty queue.
  pub queue_progress :
      (input : List Text) (e : QueueExchange)
      → ((n : ℕ) → n ≤ text_size → has_room [] n ≡ true)
      → QueueRun has_room (messages input) e
      → (e.pc ≡ q_done) ⊎ (queue_can_step e ≡ true)
  queue_progress input e room run =
      waits_not input e.queue e.todo e.pc e.got room
        (QueueRun-IsQueued has_room (messages input) e run)
