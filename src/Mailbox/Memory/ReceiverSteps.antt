-- ===== src/Mailbox/Memory/ReceiverSteps.antt =====
-- lab1/receiver.c: the steps of the receiver keep the invariant.
use ncku_operating_system.Base.{
  ℕ, zero, suc, ◌+◌, ◌≡◌, refl, Bool, false, Bool-cases, inl, inr, List, [], ◌∷◌, ◌++◌, map, Option,
  none, some, arith, if◌then◌else◌, Text, ap, sym, ◌∙◌, All-append,
}
use mathlib.Core.List.{append_assoc}
use ncku_operating_system.Mailbox.Message.{Message, is_exit_text}
use ncku_operating_system.Mailbox.Memory.{
  ShmMailbox, SenderPc, s_create, s_ready, s_empty, s_mutex, s_buffer, s_length, s_is_exit,
  s_post_mutex, s_post_full, s_done, sem_wait, Sender, ReceiverPc, r_create, r_ready, r_full,
  r_mutex, r_length, r_done, r_copy, r_clear, r_post_mutex, r_post_empty, r_check, Receiver, stored,
  bounded, receiver_step,
}
use ncku_operating_system.Mailbox.Memory.Invariant.{
  delivered, s_token, slot, flow, SenderLocal, IsLive,
}
use ncku_operating_system.Mailbox.Texts.{IsPlain}

-- What a step of the receiver leads to, from the invariant.
abbrev pub ReceiverLeads : List Message → Sender → Option (ShmMailbox × Receiver) → Type 0
ReceiverLeads ms s none = Unit
ReceiverLeads ms s (some (box', r')) = IsLive ms box' s r'

-- A sender without the token has stored nothing.
SenderLocal-other :
    (pc : SenderPc) (todo : List Message) (b b' : Text) (l l' : ℕ) (x x' : Bool)
    → s_token pc ≡ 0
    → SenderLocal pc todo b l x
    → SenderLocal pc todo b' l' x'
SenderLocal-other s_create todo b b' l l' x x' e k = k
SenderLocal-other s_ready todo b b' l l' x x' e k = k
SenderLocal-other s_empty todo b b' l l' x x' e k = k
SenderLocal-other s_mutex todo b b' l l' x x' e k = absurd (omega (arith, e))
SenderLocal-other s_buffer todo b b' l l' x x' e k = absurd (omega (arith, e))
SenderLocal-other s_length todo b b' l l' x x' e k = absurd (omega (arith, e))
SenderLocal-other s_is_exit todo b b' l l' x x' e k = absurd (omega (arith, e))
SenderLocal-other s_post_mutex todo b b' l l' x x' e k = absurd (omega (arith, e))
SenderLocal-other s_post_full todo b b' l l' x x' e k = absurd (omega (arith, e))
SenderLocal-other s_done todo b b' l l' x x' e k = k

module _ (ms : List Message) (box : ShmMailbox) (s : Sender) (got : List Message) where
  at_pc : ReceiverPc → Receiver
  at_pc pc = record { pc = pc; got = got }

  -- The same message, by a sum of the same value.
  stream-slot :
      (n n' : ℕ) (m : Message)
      → n ≡ n'
      → flow got [] (slot n' m) (map delivered s.todo) ≡ map delivered ms
      → flow got [] (slot n m) (map delivered s.todo) ≡ map delivered ms
  stream-slot n n' m same e = ap (λ k. flow got [] (slot k m) (map delivered s.todo)) same ∙ e

  wait_full :
      (full : ℕ)
      → box.full ≡ full
      → IsLive ms box s (record { pc = r_full; got = got })
      → ReceiverLeads ms s (elim (sem_wait full) [
        | none ↦ none
        | some n ↦ some (record box { full = n }, record { pc = r_mutex; got = got })
      ])
  wait_full zero e v = tt
  wait_full (suc n) e v = record {
    is_ready = v.is_ready;
    tokens = omega (arith, v.tokens, e);
    one = v.one;
    sending = v.sending;
    receiving = v.receiving;
    stream = stream-slot (n + 1) (box.full + 0) _ (omega (arith, e)) v.stream;
  }

  wait_mutex :
      (mutex : ℕ)
      → box.mutex ≡ mutex
      → IsLive ms box s (record { pc = r_mutex; got = got })
      → ReceiverLeads ms s (elim (sem_wait mutex) [
        | none ↦ none
        | some n ↦ some (record box { mutex = n }, record { pc = r_length; got = got })
      ])
  wait_mutex zero e v = tt
  wait_mutex (suc n) e v = record {
    is_ready = v.is_ready;
    tokens = v.tokens;
    one = omega (arith, v.one, e);
    sending = v.sending;
    receiving = v.receiving;
    stream = v.stream;
  }

  copy :
      (n : ℕ)
      → IsLive ms box s (record { pc = r_copy n; got = got })
      → IsLive ms box s (record { pc = r_clear (stored box n); got = got })
  copy n v = record {
    is_ready = v.is_ready;
    tokens = v.tokens;
    one = v.one;
    sending = v.sending;
    receiving = v.receiving.1;
    stream =
        (let free : box.full + 0 ≡ 0 = omega (arith, v.tokens) in
          let used : box.full + 1 ≡ 1 = omega (arith, v.tokens) in
          ap
            (λ k.
              flow got (stored box n ∷ []) (slot k (stored box (bounded box.length)))
                (map delivered s.todo))
            free
          ∙ ap (λ k. got ++ stored box k ∷ map delivered s.todo) v.receiving.0
          ∙ ap (λ k. flow got [] (slot k (stored box (bounded box.length))) (map delivered s.todo))
              (sym used)
          ∙ v.stream);
  }

  check :
      (m : Message)
      → IsLive ms box s (record { pc = r_check m; got = got })
      → IsLive ms box s (record {
        pc = (if is_exit_text m.msg_text then r_done else r_ready);
        got = got ++ m ∷ [];
      })
  check m v = elim (Bool-cases (is_exit_text m.msg_text)) [
    | inl exit ↦ rw exit (record {
      is_ready = v.is_ready;
      tokens = v.tokens;
      one = v.one;
      sending = v.sending;
      receiving = (got, m, refl, v.receiving, exit);
      stream = append_assoc got (m ∷ []) _ ∙ v.stream;
    })
    | inr plain ↦ rw plain (record {
      is_ready = v.is_ready;
      tokens = v.tokens;
      one = v.one;
      sending = v.sending;
      receiving = All-append IsPlain got (m ∷ []) v.receiving (plain, tt);
      stream = append_assoc got (m ∷ []) _ ∙ v.stream;
    })
  ]

-- Every step of the receiver keeps the invariant.
pub receiver_step-IsLive :
    (ms : List Message) (pc : ReceiverPc) (got : List Message) (box : ShmMailbox) (s : Sender)
    → IsLive ms box s (record { pc = pc; got = got })
    → ReceiverLeads ms s (receiver_step pc got box)
unfolding receiver_step
receiver_step-IsLive ms r_create got box s v = absurd v.receiving
receiver_step-IsLive ms r_ready got box s v = simp (v.is_ready) (record {
  is_ready = v.is_ready;
  tokens = v.tokens;
  one = v.one;
  sending = v.sending;
  receiving = v.receiving;
  stream = v.stream;
})
receiver_step-IsLive ms r_full got box s v = wait_full ms box s got box.full refl v
receiver_step-IsLive ms r_mutex got box s v = wait_mutex ms box s got box.mutex refl v
receiver_step-IsLive ms r_length got box s v = record {
  is_ready = v.is_ready;
  tokens = v.tokens;
  one = v.one;
  sending = v.sending;
  receiving = (refl, v.receiving);
  stream = v.stream;
}
receiver_step-IsLive ms (r_copy n) got box s v = copy ms box s got n v
receiver_step-IsLive ms (r_clear m) got box s v = record {
  is_ready = v.is_ready;
  tokens = v.tokens;
  one = v.one;
  sending = SenderLocal-other s.pc s.todo _ _ _ _ _ _ (omega (arith, v.tokens)) v.sending;
  receiving = v.receiving;
  stream =
      (let free : box.full + 0 ≡ 0 = omega (arith, v.tokens) in
        let old = stored box (bounded box.length) in
        ap
          (λ k.
            flow got (m ∷ [])
              (slot k
                (stored (record box { length = 0; is_exit = false; buffer = [] }) (bounded 0)))
              (map delivered s.todo))
          free
        ∙ ap (λ k. flow got (m ∷ []) (slot k old) (map delivered s.todo)) (sym free)
        ∙ v.stream);
}
receiver_step-IsLive ms (r_post_mutex m) got box s v = record {
  is_ready = v.is_ready;
  tokens = v.tokens;
  one = omega (arith, v.one);
  sending = v.sending;
  receiving = v.receiving;
  stream = v.stream;
}
receiver_step-IsLive ms (r_post_empty m) got box s v = record {
  is_ready = v.is_ready;
  tokens = omega (arith, v.tokens);
  one = v.one;
  sending = v.sending;
  receiving = v.receiving;
  stream = v.stream;
}
receiver_step-IsLive ms (r_check m) got box s v = check ms box s got m v
receiver_step-IsLive ms r_done got box s v = tt
