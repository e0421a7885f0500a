-- ===== src/Queue/Visibility.antt =====
-- What a call of ReceiveMessages in internal/repositories/postgres/queue_repo.go returns.
use thecloud.Prelude.{
  ℕ, suc, ◌≤◌, Bool, true, List, [], ◌∷◌, keep, take, length, length-take_le, All, All-keep,
  All-take, All-intro, ◌≡◌, refl, arith,
}
use thecloud.Action.{ok, World, Env}
use thecloud.Queue.Types.{Message, Tables}
use thecloud.Queue.Repo.{receivable, receive_messages}
use thecloud.Queue.Receive.{Stamped, hidden_until, receive_messages_lem}

length-Stamped : (v : ℕ) (rows ms : List Message) → Stamped v rows ms → length ms ≡ length rows
length-Stamped v [] [] h = refl
length-Stamped v [] (m ∷ ms) h = absurd h
length-Stamped v (r ∷ rows) [] h = absurd h
length-Stamped v (r ∷ rows) (m ∷ ms) h = omega (arith, length-Stamped v rows ms h.5)

pub Stamped-hidden :
    (v : ℕ) (rows ms : List Message)
    → Stamped v rows ms
    → All (λ (m : Message). m.visible_at ≡ v) ms
Stamped-hidden v [] [] h = tt
Stamped-hidden v [] (m ∷ ms) h = absurd h
Stamped-hidden v (r ∷ rows) [] h = absurd h
Stamped-hidden v (r ∷ rows) (m ∷ ms) h = (h.3, Stamped-hidden v rows ms h.5)

-- What holds of the identifiers and queues of the rows holds of those of the messages.
pub Stamped-All :
    (P : ℕ → ℕ → Type 0) (v : ℕ) (rows ms : List Message)
    → Stamped v rows ms
    → All (λ (r : Message). P r.id r.queue_id) rows
    → All (λ (m : Message). P m.id m.queue_id) ms
Stamped-All P v [] [] h a = tt
Stamped-All P v [] (m ∷ ms) h a = absurd h
Stamped-All P v (r ∷ rows) [] h a = absurd h
Stamped-All P v (r ∷ rows) (m ∷ ms) h a = (rw (h.0, h.1) a.0, Stamped-All P v rows ms h.5 a.1)

receivable-queue :
    (locked : ℕ → Bool) (queue_id clock : ℕ) (m : Message)
    → receivable locked queue_id clock m ≡ true
    → m.queue_id ≡ queue_id
receivable-queue locked queue_id clock m h = ground arith

module _ (locked : ℕ → Bool) (queue_id limit timeout : ℕ) (e : Env) (w : World Tables)
    (ms : List Message)
    (done : (receive_messages locked queue_id limit timeout e w).0 ≡ ok ms) where
  -- A call returns at most `limit` messages, all of the queue.
  pub receive_messages_bounds :
      (length ms ≤ limit) × All (λ (m : Message). m.queue_id ≡ queue_id) ms
  receive_messages_bounds =
      let (stamped, written, kept) =
        receive_messages_lem locked queue_id limit timeout e w ms done in
      let clock : ℕ = e.clock (suc w.tick) in
      let visible : List Message = keep (receivable locked queue_id clock) w.tables.messages in
      let at_most : length (take limit visible) ≤ limit = length-take_le limit visible in
      (
        omega (
          arith,
          at_most,
          length-Stamped (hidden_until locked queue_id limit timeout e w) (take limit visible) ms
              stamped,
        ),
        Stamped-All (λ id q. q ≡ queue_id) (hidden_until locked queue_id limit timeout e w)
            (take limit visible) ms stamped
            (All-take (λ (m : Message). m.queue_id ≡ queue_id) limit visible
              (All-keep (λ (m : Message). m.queue_id ≡ queue_id) (receivable locked queue_id clock)
                w.tables.messages
                (All-intro _ w.tables.messages (receivable-queue locked queue_id clock)))),
      )
