-- ===== src/Mailbox/Memory/SenderSteps.antt =====
-- lab1/sender.c: the steps of the sender keep the invariant.
use ncku_operating_system.Base.{
  ℕ, zero, suc, ◌+◌, ◌≡◌, refl, Bool, List, [], ◌∷◌, map, Option, none, some, arith, Text, ap, sym,
  ◌∙◌,
}
use ncku_operating_system.Mailbox.Message.{Message}
use ncku_operating_system.Mailbox.Memory.{
  ShmMailbox, SenderPc, s_create, s_ready, s_empty, s_mutex, s_buffer, s_length, s_is_exit,
  s_post_mutex, s_post_full, s_done, sem_wait, Sender, sender_step, Receiver, stored, bounded,
}
use ncku_operating_system.Mailbox.Memory.Invariant.{
  delivered, r_token, r_reading, local, slot, buffered, flow, IsLive, stored-delivered, empty_slot,
  reading-le-token, ReceiverLocal-other,
}

-- What a step of the sender leads to, from the invariant.
abbrev pub SenderLeads : List Message → Receiver → Option (ShmMailbox × Sender) → Type 0
SenderLeads ms r none = Unit
SenderLeads ms r (some (box', s')) = IsLive ms box' s' r

module _ (ms : List Message) (box : ShmMailbox) (r : Receiver) where
  wait_empty :
      (todo : List Message) (empty : ℕ)
      → box.empty ≡ empty
      → IsLive ms box (record { pc = s_empty; todo = todo }) r
      → SenderLeads ms r (elim (sem_wait empty) [
        | none ↦ none
        | some n ↦ some (record box { empty = n }, record { pc = s_mutex; todo = todo })
      ])
  wait_empty todo zero e v = tt
  wait_empty todo (suc n) e v = record {
    is_ready = v.is_ready;
    tokens = omega (arith, v.tokens, e);
    one = v.one;
    sending = v.sending;
    receiving = v.receiving;
    stream = v.stream;
  }

  wait_mutex :
      (todo : List Message) (mutex : ℕ)
      → box.mutex ≡ mutex
      → IsLive ms box (record { pc = s_mutex; todo = todo }) r
      → SenderLeads ms r (elim (sem_wait mutex) [
        | none ↦ none
        | some n ↦ some (record box { mutex = n }, record { pc = s_buffer; todo = todo })
      ])
  wait_mutex todo zero e v = tt
  wait_mutex todo (suc n) e v = record {
    is_ready = v.is_ready;
    tokens = v.tokens;
    one = omega (arith, v.one, e);
    sending = v.sending;
    receiving = v.receiving;
    stream = v.stream;
  }

  -- A store of the sender, while it has the token.
  stream-store :
      (b : Text) (l : ℕ) (x : Bool) (rest : List Message)
      → box.full + r_token r.pc ≡ 0
      → flow r.got (local r.pc) (buffered box r.pc) rest ≡ map delivered ms
      → flow r.got
          (local r.pc)
          (buffered (record box { buffer = b; length = l; is_exit = x }) r.pc)
          rest
        ≡ map delivered ms
  stream-store b l x rest none_left e =
      let before : buffered box r.pc ≡ [] = empty_slot box.full r.pc _ none_left in
      let after : buffered (record box { buffer = b; length = l; is_exit = x }) r.pc ≡ [] =
        empty_slot box.full r.pc _ none_left in
      ap (λ bs. flow r.got (local r.pc) bs rest) (after ∙ sym before) ∙ e

  post_full :
      (m : Message) (todo : List Message)
      → IsLive ms box (record { pc = s_post_full; todo = m ∷ todo }) r
      → IsLive ms (record box { full = suc box.full }) (record { pc = s_ready; todo = todo }) r
  post_full m todo v =
      let before : buffered box r.pc ≡ [] = empty_slot box.full r.pc _ (omega (arith, v.tokens)) in
      let one_more : suc box.full + r_reading r.pc ≡ 1 =
        omega (arith, v.tokens, reading-le-token r.pc) in
      let filled = stored-delivered box m v.sending.0 v.sending.1 v.sending.2 in
      let after : buffered (record box { full = suc box.full }) r.pc ≡ delivered m ∷ [] =
        ap (λ n. slot n (stored box (bounded box.length))) one_more ∙ ap (λ x. x ∷ []) filled in
      record {
        is_ready = v.is_ready;
        tokens = omega (arith, v.tokens);
        one = v.one;
        sending = tt;
        receiving = v.receiving;
        stream =
            ap (λ bs. flow r.got (local r.pc) bs (map delivered todo)) after
            ∙ ap (λ bs. flow r.got (local r.pc) bs (delivered m ∷ map delivered todo)) (sym before)
            ∙ v.stream;
      }

-- Every step of the sender keeps the invariant.
pub sender_step-IsLive :
    (ms : List Message) (pc : SenderPc) (todo : List Message) (box : ShmMailbox) (r : Receiver)
    → IsLive ms box (record { pc = pc; todo = todo }) r
    → SenderLeads ms r (sender_step pc todo box)
unfolding sender_step
sender_step-IsLive ms s_create todo box r v = absurd v.sending
sender_step-IsLive ms s_ready [] box r v = record {
  is_ready = v.is_ready;
  tokens = v.tokens;
  one = v.one;
  sending = refl;
  receiving = v.receiving;
  stream = v.stream;
}
sender_step-IsLive ms s_ready (m ∷ todo) box r v = simp (v.is_ready) (record {
  is_ready = v.is_ready;
  tokens = v.tokens;
  one = v.one;
  sending = tt;
  receiving = v.receiving;
  stream = v.stream;
})
sender_step-IsLive ms s_empty todo box r v = wait_empty ms box r todo box.empty refl v
sender_step-IsLive ms s_mutex todo box r v = wait_mutex ms box r todo box.mutex refl v
sender_step-IsLive ms s_buffer [] box r v = tt
sender_step-IsLive ms s_buffer (m ∷ todo) box r v = record {
  is_ready = v.is_ready;
  tokens = v.tokens;
  one = v.one;
  sending = refl;
  receiving = v.receiving;
  stream = stream-store ms box r _ _ _ _ (omega (arith, v.tokens)) v.stream;
}
sender_step-IsLive ms s_length [] box r v = tt
sender_step-IsLive ms s_length (m ∷ todo) box r v = record {
  is_ready = v.is_ready;
  tokens = v.tokens;
  one = v.one;
  sending = (v.sending, refl);
  receiving = ReceiverLocal-other r.pc r.got box.length _ (omega (arith, v.tokens)) v.receiving;
  stream = stream-store ms box r _ _ _ _ (omega (arith, v.tokens)) v.stream;
}
sender_step-IsLive ms s_is_exit [] box r v = tt
sender_step-IsLive ms s_is_exit (m ∷ todo) box r v = record {
  is_ready = v.is_ready;
  tokens = v.tokens;
  one = v.one;
  sending = (v.sending.0, v.sending.1, refl);
  receiving = v.receiving;
  stream = stream-store ms box r _ _ _ _ (omega (arith, v.tokens)) v.stream;
}
sender_step-IsLive ms s_post_mutex todo box r v = record {
  is_ready = v.is_ready;
  tokens = v.tokens;
  one = omega (arith, v.one);
  sending = v.sending;
  receiving = v.receiving;
  stream = v.stream;
}
sender_step-IsLive ms s_post_full [] box r v = tt
sender_step-IsLive ms s_post_full (m ∷ todo) box r v = post_full ms box r m todo v
sender_step-IsLive ms s_done todo box r v = tt
