-- ===== src/Queue/Exclusive.antt =====
-- Visibility timeouts of internal/repositories/postgres/queue_repo.go: what was received stays hidden
-- through whatever happens to the messages before its timeout.
use thecloud.Prelude.{
  ℕ, suc, ◌+◌, ◌≤◌, ◌<◌, Bool, true, false, List, [], ◌∷◌, Text, map, All, ◌≡◌, arith,
}
use thecloud.Action.{ok, World, Env}
use thecloud.Queue.Types.{Message, Tables}
use thecloud.Queue.Repo.{receive_messages, send_message, delete_message, purge_messages}
use thecloud.Queue.Receive.{
  mark_by, mark_by_id, mark_by_hides, has_id, selected, hidden_until, receive_messages_lem,
}
use thecloud.Queue.Visibility.{Stamped-hidden}
use thecloud.Queue.Hidden.{
  Hidden, received, receive-Hidden, send-Hidden, delete_message-Hidden, purge_messages-Hidden,
}

-- What changes messages, on any queue.
pub data Traffic : Type 0 where
  receive : (ℕ → Bool) → ℕ → ℕ → ℕ → Traffic
  send : ℕ → Text → Traffic
  acknowledge : ℕ → ℕ → Traffic
  purge : ℕ → Traffic

abbrev pub after : Traffic → Env → World Tables → World Tables
after (receive locked queue_id limit timeout) e w =
    (receive_messages locked queue_id limit timeout e w).1
after (send queue_id body) e w = (send_message queue_id body e w).1
after (acknowledge queue_id handle) e w = (delete_message queue_id handle e w).1
after (purge queue_id) e w = (purge_messages queue_id e w).1

abbrev pub run_all : List (Env × Traffic) → World Tables → World Tables
run_all [] w = w
run_all ((e, x) ∷ rest) w = run_all rest (after x e w)

module _ (ms : List Message) (v : ℕ) where
  -- Before `v`, and no new identifier is that of one of these messages.
  abbrev pub Before : Env → Type 0
  Before e = ((n : ℕ) → e.clock n < v) × ((n : ℕ) → has_id ms (e.fresh n) ≡ false)

  after-Hidden :
      (x : Traffic) (e : Env) (w : World Tables)
      → Before e
      → Hidden ms v w.tables
      → Hidden ms v (after x e w).tables
  after-Hidden (receive locked queue_id limit timeout) e w early h =
      receive-Hidden ms v locked queue_id limit timeout e w early.0 h
  after-Hidden (send queue_id body) e w early h = (send-Hidden ms v queue_id body e early.1).at w h
  after-Hidden (acknowledge queue_id handle) e w early h =
      (delete_message-Hidden ms v queue_id handle e).at w h
  after-Hidden (purge queue_id) e w early h = (purge_messages-Hidden ms v queue_id e).at w h

  run_all-Hidden :
      (history : List (Env × Traffic)) (w : World Tables)
      → All (λ (x : Env × Traffic). Before x.0) history
      → Hidden ms v w.tables
      → Hidden ms v (run_all history w).tables
  run_all-Hidden [] w early h = h
  run_all-Hidden ((e, x) ∷ rest) w early h =
      run_all-Hidden rest (after x e w) early.1 (after-Hidden x e w early.0 h)

hidden_rows :
    (v : ℕ) (ms rows : List Message)
    → All (λ (m : Message). m.visible_at ≡ v) ms
    → All (λ (r : Message). has_id ms r.id ≡ true → v ≤ r.visible_at) (map (mark_by ms) rows)
hidden_rows v ms [] all = tt
hidden_rows v ms (r ∷ rows) all = (
  λ mine.
      let own : has_id ms r.id ≡ true = ground (arith, mark_by_id ms r) in
      let until = mark_by_hides v ms r all own in omega (arith, until),
  hidden_rows v ms rows all,
)

-- Until the timeout of a call of `ReceiveMessages` has passed, no later call, on any connection and with
-- any limit and timeout of its own, returns one of its messages, whatever calls to receive, send,
-- acknowledge and purge, on any queues and failing or not, come in between, if no new message has the
-- identifier of one of them.
pub receive_messages_exclusive :
    (locked : ℕ → Bool) (queue_id limit timeout : ℕ) (e : Env) (w : World Tables)
    (ms : List Message) (history : List (Env × Traffic)) (locked' : ℕ → Bool)
    (queue_id' limit' timeout' : ℕ) (e' : Env) (ms' : List Message)
    → (receive_messages locked queue_id limit timeout e w).0 ≡ ok ms
    → All (λ (x : Env × Traffic). Before ms (e.clock (suc (suc w.tick)) + timeout) x.0) history
    → ((n : ℕ) → e'.clock n < e.clock (suc (suc w.tick)) + timeout)
    → (receive_messages locked' queue_id' limit' timeout' e'
        (run_all history (receive_messages locked queue_id limit timeout e w).1)).0
      ≡ ok ms'
    → All (λ (m : Message). has_id ms m.id ≡ false) ms'
receive_messages_exclusive locked queue_id limit timeout e w ms history locked' queue_id' limit'
      timeout' e' ms' done between early done' =
    let v = hidden_until locked queue_id limit timeout e w in
    let w1 = (receive_messages locked queue_id limit timeout e w).1 in
    let (stamped, written, kept) = receive_messages_lem locked queue_id limit timeout e w ms done in
    let hidden = Stamped-hidden v (selected locked queue_id limit timeout e w) ms stamped in
    let first : All (λ (r : Message). has_id ms r.id ≡ true → v ≤ r.visible_at) w1.tables.messages =
      rw written (hidden_rows v ms w.tables.messages hidden) in
    received ms v locked' queue_id' limit' timeout' e' (run_all history w1) ms' early
      (run_all-Hidden ms v history w1 between first) done'
