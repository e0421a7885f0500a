-- ===== src/Queue/Repo.antt =====
-- internal/repositories/postgres/queue_repo.go.
use thecloud.Prelude.{
  ℕ, ◌+◌, ◌-◌, Bool, false, Option, none, some, List, [], ◌∷◌, ◌++◌, Text, text_eq, keep, take,
  find?, any, modify, length, leb, ltb, ◌==◌, ◌&&◌, ◌||◌, not, if◌then◌else◌,
}
use thecloud.Errors.{new, plain, not_found}
use thecloud.Action.{
  Result, ok, err, Action, Done, pure, call, call_at, new_id, now, transaction, ◌>>=◌, ◌>>◌,
}
use thecloud.Queue.Types.{Queue, Message, Tables}

abbrev pub Q : Type 0 → Type 0
Q A = Action Tables A

-- `Create`: the identifier is the key, and a user's names are unique.
unfoldable pub create : Queue → Q Done
create q = call λ t.
    if any (λ (p : Queue). p.id == q.id || (p.user_id == q.user_id && text_eq p.name q.name))
      t.queues
    then (err plain, t)
    else (ok tt, record t { queues = t.queues ++ q ∷ [] })

-- `GetByID`: a missing row is no error.
unfoldable pub get_by_id : ℕ → ℕ → Q (Option Queue)
get_by_id id user =
    call λ t. (ok (find? (λ (q : Queue). q.id == id && q.user_id == user) t.queues), t)

-- `GetByName`.
unfoldable pub get_by_name : Text → ℕ → Q (Option Queue)
get_by_name name user =
    call λ t. (ok (find? (λ (q : Queue). text_eq q.name name && q.user_id == user) t.queues), t)

-- `List`.
unfoldable pub list : ℕ → Q (List Queue)
list user = call λ t. (ok (keep (λ (q : Queue). q.user_id == user) t.queues), t)

-- `Delete`, with the cascade to the messages.
unfoldable pub delete : ℕ → Q Done
delete id = call λ t.
    if any (λ (q : Queue). q.id == id) t.queues
    then (
      ok tt,
      record {
        queues = keep (λ (q : Queue). not (q.id == id)) t.queues;
        messages = keep (λ (m : Message). not (m.queue_id == id)) t.messages;
      },
    )
    else (err (new not_found), t)

-- The row that `SendMessage` inserts: its queue and its identifier are constrained.
abbrev pub insert_message : Message → Tables → Result Done × Tables
insert_message m t =
    if any (λ (j : Message). j.id == m.id) t.messages
      || not (any (λ (q : Queue). q.id == m.queue_id) t.queues)
    then (err plain, t)
    else (ok tt, record t { messages = t.messages ++ m ∷ [] })

-- `SendMessage`: the database's clock is used if the program's has not moved by a second.
unfoldable pub send_message : ℕ → Text → Q Message
send_message queue_id body = do
  id ← new_id
  visible ← now
  created ← now
  since ← now
  until ← now
  let m : Message = record {
    id = id;
    queue_id = queue_id;
    body = body;
    receipt_handle = none;
    visible_at = visible;
    received_count = 0;
    created_at = created;
  }
  if ltb (since - visible) 1 && ltb (visible - until) 1
      then call_at (λ clock. insert_message (record m { visible_at = clock; created_at = clock }))
      else call (insert_message m)
  pure m

-- The rows that the `SELECT` of `ReceiveMessages` may return: visible, and not locked by another
-- transaction.
abbrev pub receivable : (ℕ → Bool) → ℕ → ℕ → Message → Bool
receivable locked queue_id clock m =
    m.queue_id == queue_id && leb m.visible_at clock && not (locked m.id)

-- The loop over the rows: a new receipt handle for each.
unfoldable pub stamp : ℕ → List Message → Q (List Message)
stamp visible [] = pure []
stamp visible (m ∷ ms) = do
  handle ← new_id
  rest ← stamp visible ms
  pure (
      record m {
        receipt_handle = some handle;
        visible_at = visible;
        received_count = m.received_count + 1;
      }
      ∷ rest)

-- One `UPDATE`: `received_count` is counted up by the database.
abbrev pub mark : Message → Message → Message
mark m row = record row {
  receipt_handle = m.receipt_handle;
  visible_at = m.visible_at;
  received_count = row.received_count + 1;
}

unfoldable pub mark_row : Message → Q Done
mark_row m = call λ t.
    (ok tt, record t { messages = modify (λ (row : Message). row.id == m.id) (mark m) t.messages })

unfoldable pub mark_all : List Message → Q Done
unfolding mark_row
mark_all [] = pure tt
mark_all (m ∷ ms) = do mark_row m; mark_all ms

-- `ReceiveMessages`. `locked` says which rows other transactions hold; rows come in table order.
unfoldable pub receive_messages : (ℕ → Bool) → ℕ → ℕ → ℕ → Q (List Message)
receive_messages locked queue_id limit timeout = transaction (do
  rows ←
      call_at (λ clock t. (ok (take limit (keep (receivable locked queue_id clock) t.messages)), t))
  time ← now
  messages ← stamp (time + timeout) rows
  mark_all messages
  pure messages)

abbrev pub has_receipt : ℕ → ℕ → Message → Bool
has_receipt queue_id handle m =
    (m.queue_id == queue_id) && (elim m.receipt_handle [ none ↦ false | some h ↦ h == handle ])

-- `DeleteMessage`.
unfoldable pub delete_message : ℕ → ℕ → Q Done
delete_message queue_id handle = call λ t.
    if any (has_receipt queue_id handle) t.messages
    then (ok tt, record t { messages = keep (λ m. not (has_receipt queue_id handle m)) t.messages })
    else (err (new not_found), t)

-- `PurgeMessages`: the number of rows deleted.
unfoldable pub purge_messages : ℕ → Q ℕ
purge_messages queue_id = call λ t. (
  ok (length (keep (λ (m : Message). m.queue_id == queue_id) t.messages)),
  record t { messages = keep (λ (m : Message). not (m.queue_id == queue_id)) t.messages },
)

-- `GetQueueStats`: visible and in-flight messages.
unfoldable pub get_queue_stats : ℕ → Q (ℕ × ℕ)
get_queue_stats queue_id = call_at λ clock t.
    let rows = keep (λ (m : Message). m.queue_id == queue_id) t.messages in
    (
      ok (
        length (keep (λ (m : Message). leb m.visible_at clock) rows),
        length (keep (λ (m : Message). ltb clock m.visible_at) rows),
      ),
      t,
    )
