-- ===== src/Queue/Hidden.antt =====
-- Queries of internal/repositories/postgres/queue_repo.go keep hidden what was received.
use thecloud.Prelude.{
  ℕ, suc, ◌+◌, ◌≤◌, ◌<◌, Bool, true, false, List, [], ◌∷◌, Text, map, keep, take, any, not, ◌||◌,
  ◌==◌, none, if◌then◌else◌, All, All-keep, All-take, All-imp, All-append, All-filter, ◌≡◌, refl,
  inl, inr, arith, Bool-cases,
}
use thecloud.Errors.{Error}
use thecloud.Action.{
  call, call_at, now, pure, ◌>>=◌, ◌>>◌, Result, ok, err, World, Env, Action, Keeps, Triple-pure,
  Triple-if, Keeps-bind, Keeps-write, transaction-err,
}
use thecloud.Queue.Types.{Queue, Message, Tables}
use thecloud.Queue.Repo.{
  stamp, mark_all, receivable, receive_messages, send_message, delete_message, purge_messages,
  insert_message, has_receipt,
}
use thecloud.Queue.Receive.{
  mark_by, mark_by_id, has_id, selected, hidden_until, receive_messages_lem,
}
use thecloud.Queue.Stored.{mark_by-other}
use thecloud.Queue.Visibility.{Stamped-All}

module _ (ms : List Message) (v : ℕ) where
  -- The rows of these messages are hidden until `v`.
  abbrev pub Hidden : Tables → Type 0
  Hidden t = All (λ (r : Message). has_id ms r.id ≡ true → v ≤ r.visible_at) t.messages

  apart :
      (others : List Message) (id : ℕ)
      → All (λ (m : Message). has_id ms m.id ≡ false) others
      → has_id ms id ≡ true
      → has_id others id ≡ false
  apart [] id all h = refl
  apart (m ∷ others) id all h = ground (arith, all.0, apart others id all.1 h)

  unreceived :
      (locked : ℕ → Bool) (queue_id clock : ℕ) (r : Message)
      → clock < v
      → (has_id ms r.id ≡ true → v ≤ r.visible_at)
      → receivable locked queue_id clock r ≡ true
      → has_id ms r.id ≡ false
  unreceived locked queue_id clock r early hidden h = elim (Bool-cases (has_id ms r.id)) [
    | inr other ↦ other
    | inl mine ↦ let late = hidden mine in ground arith
  ]

  pub received :
      (locked : ℕ → Bool) (queue_id limit timeout : ℕ) (e : Env) (w : World Tables)
      (others : List Message)
      → ((n : ℕ) → e.clock n < v)
      → Hidden w.tables
      → (receive_messages locked queue_id limit timeout e w).0 ≡ ok others
      → All (λ (m : Message). has_id ms m.id ≡ false) others
  received locked queue_id limit timeout e w others early hidden done =
      let (stamped, written, kept) =
        receive_messages_lem locked queue_id limit timeout e w others done in
      let clock = e.clock (suc w.tick) in
      Stamped-All (λ id q. has_id ms id ≡ false) (hidden_until locked queue_id limit timeout e w)
        (selected locked queue_id limit timeout e w) others stamped
        (All-take (λ (m : Message). has_id ms m.id ≡ false) limit _
          (All-keep (λ (m : Message). has_id ms m.id ≡ false) (receivable locked queue_id clock)
            w.tables.messages
            (All-imp (λ (r : Message). has_id ms r.id ≡ true → v ≤ r.visible_at)
              (λ (r : Message). receivable locked queue_id clock r ≡ true → has_id ms r.id ≡ false)
              w.tables.messages (λ r h. unreceived locked queue_id clock r (early (suc w.tick)) h)
              hidden)))

  marked :
      (others rows : List Message)
      → All (λ (m : Message). has_id ms m.id ≡ false) others
      → All (λ (r : Message). has_id ms r.id ≡ true → v ≤ r.visible_at) rows
      → All (λ (r : Message). has_id ms r.id ≡ true → v ≤ r.visible_at) (map (mark_by others) rows)
  marked others [] all h = tt
  marked others (r ∷ rows) all h = (
    λ mine.
        let own : has_id ms r.id ≡ true = ground (arith, mark_by_id others r) in
        rw (mark_by-other others r (apart others r.id all own)) (h.0 own),
    marked others rows all h.1,
  )

  unchanged :
      (locked : ℕ → Bool) (queue_id limit timeout : ℕ) (e : Env) (w : World Tables) (x : Error)
      → (receive_messages locked queue_id limit timeout e w).0 ≡ err x
      → (receive_messages locked queue_id limit timeout e w).1.tables ≡ w.tables
  unfolding receive_messages
  unchanged locked queue_id limit timeout e w x lost =
      transaction-err
        (do
          rows ←
              call_at (λ clock t.
                (ok (take limit (keep (receivable locked queue_id clock) t.messages)), t))
          time ← now
          messages ← stamp (time + timeout) rows
          mark_all messages
          pure messages)
        e w lost

  pub receive-Hidden :
      (locked : ℕ → Bool) (queue_id limit timeout : ℕ) (e : Env) (w : World Tables)
      → ((n : ℕ) → e.clock n < v)
      → Hidden w.tables
      → Hidden (receive_messages locked queue_id limit timeout e w).1.tables
  receive-Hidden locked queue_id limit timeout e w early hidden =
      go (receive_messages locked queue_id limit timeout e w).0 refl
    where
      go :
          (r : Result (List Message))
          → (receive_messages locked queue_id limit timeout e w).0 ≡ r
          → Hidden (receive_messages locked queue_id limit timeout e w).1.tables
      go (ok others) done =
          rw (receive_messages_lem locked queue_id limit timeout e w others done).1 (
            marked others w.tables.messages
              (received locked queue_id limit timeout e w others early hidden done) hidden)
      go (err x) lost = rw (unchanged locked queue_id limit timeout e w x lost) hidden

  insert-Hidden :
      (m : Message)
      → has_id ms m.id ≡ false
      → (t : Tables) → Hidden t
      → Hidden (insert_message m t).1
  insert-Hidden m other t h =
      elim (Bool-cases (
        any (λ (j : Message). j.id == m.id) t.messages
        || not (any (λ (q : Queue). q.id == m.queue_id) t.queues))) [
          | inl bad ↦ rw bad h
          | inr fine ↦ rw fine (
              All-append (λ (r : Message). has_id ms r.id ≡ true → v ≤ r.visible_at) t.messages
                (m ∷ []) h (λ mine. cc (mine, other), tt))
        ]

  abbrev inserted : Message → Bool → Action Tables Message
  inserted m close = do
    if close
        then call_at (λ clock. insert_message (record m { visible_at = clock; created_at = clock }))
        else call (insert_message m)
    pure m

  inserted-Hidden :
      (m : Message) (close : Bool) (e : Env)
      → has_id ms m.id ≡ false
      → Keeps e Hidden (inserted m close)
  inserted-Hidden m close e other =
      Keeps-bind _ _
        (Triple-if close _ _
          (λ soon. record {
            at = λ w h.
                let late = record m { visible_at = e.clock w.tick; created_at = e.clock w.tick } in
                (Keeps-write {e = e} {P = Hidden} (insert_message late)
                    (insert-Hidden late other)).at
                  w h;
          })
          (λ far. Keeps-write (insert_message m) (insert-Hidden m other)))
        (λ d. Triple-pure m (λ t h. h))

  pub send-Hidden :
      (queue_id : ℕ) (body : Text) (e : Env)
      → ((n : ℕ) → has_id ms (e.fresh n) ≡ false)
      → Keeps e Hidden (send_message queue_id body)
  unfolding send_message
  send-Hidden queue_id body e fresh = record {
    at = λ w h.
        (inserted-Hidden
            (record {
              id = e.fresh w.tick;
              queue_id = queue_id;
              body = body;
              receipt_handle = none;
              visible_at = e.clock (suc w.tick);
              received_count = 0;
              created_at = e.clock (suc (suc w.tick));
            })
            _ e (fresh w.tick)).at
          (record w { tick = suc (suc (suc (suc (suc w.tick)))) }) h;
  }

  pub delete_message-Hidden :
      (queue_id handle : ℕ) (e : Env) → Keeps e Hidden (delete_message queue_id handle)
  unfolding delete_message
  delete_message-Hidden queue_id handle e = Keeps-write _ (λ t h.
      elim (Bool-cases (any (has_receipt queue_id handle) t.messages)) [
        | inl there ↦
            rw there (
              All-filter (λ (r : Message). has_id ms r.id ≡ true → v ≤ r.visible_at) _ t.messages h)
        | inr missing ↦ rw missing h
      ])

  pub purge_messages-Hidden : (queue_id : ℕ) (e : Env) → Keeps e Hidden (purge_messages queue_id)
  unfolding purge_messages
  purge_messages-Hidden queue_id e =
      Keeps-write _ (λ t h.
        All-filter (λ (r : Message). has_id ms r.id ≡ true → v ≤ r.visible_at) _ t.messages h)
