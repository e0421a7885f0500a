-- ===== src/Queue/Service.antt =====
-- internal/core/services/queue.go.
use thecloud.Prelude.{
  ℕ, Bool, Option, none, some, List, [], ◌∷◌, Text, length, ltb, leb, ◌==◌, if◌then◌else◌,
}
use thecloud.Errors.{plain}
use thecloud.Action.{Done, pure, raise, ask, raise_if, new_id, note, nil_id, ◌>>=◌, ◌>>◌}
use thecloud.Queue.Types.{Queue, Message, CreateQueueOptions, active}
use thecloud.Queue.Repo.{
  Q, create, get_by_id, get_by_name, list, delete, send_message, receive_messages, delete_message,
  purge_messages,
}

abbrev or_default : Option ℕ → ℕ → ℕ
or_default none d = d
or_default (some n) d = n

-- The queue that `CreateQueue` builds from the options.
abbrev configured : ℕ → ℕ → Text → Option CreateQueueOptions → Queue
configured id user name none = record {
  id = id;
  user_id = user;
  name = name;
  visibility_timeout = 30;
  retention_days = 4;
  max_message_size = 262144;
  status = active;
}
configured id user name (some o) = record {
  id = id;
  user_id = user;
  name = name;
  visibility_timeout = or_default o.visibility_timeout 30;
  retention_days = or_default o.retention_days 4;
  max_message_size = or_default o.max_message_size 262144;
  status = active;
}

-- The user of the context, or `unauthorized`.
abbrev authenticated : Q ℕ
authenticated = do user ← ask (λ e. e.user); raise_if (user == nil_id) plain; pure user

abbrev refuse_existing : Option Queue → Q Done
refuse_existing none = pure tt
refuse_existing (some q) = raise plain

-- `CreateQueue`.
unfoldable pub create_queue : Text → Option CreateQueueOptions → Q Queue
create_queue name options = do
  user ← authenticated
  existing ← get_by_name name user
  refuse_existing existing
  id ← new_id
  let q : Queue = configured id user name options
  create q
  note "QUEUE_CREATED" user q.id
  note "queue.create" user q.id
  pure q

abbrev found_or_error : Option Queue → Q Queue
found_or_error none = raise plain
found_or_error (some q) = pure q

-- `GetQueue`.
unfoldable pub get_queue : ℕ → Q Queue
unfolding get_by_id
get_queue id = do user ← authenticated; row ← get_by_id id user; found_or_error row

-- `ListQueues`.
unfoldable pub list_queues : Q (List Queue)
list_queues = do user ← authenticated; list user

-- `DeleteQueue`.
unfoldable pub delete_queue : ℕ → Q Done
delete_queue id = do
  q ← get_queue id
  delete q.id
  note "QUEUE_DELETED" q.user_id q.id
  note "queue.delete" q.user_id q.id

-- `SendMessage`.
unfoldable pub send : ℕ → Text → Q Message
send queue_id body = do
  q ← get_queue queue_id
  raise_if (ltb q.max_message_size (length body)) plain
  m ← send_message q.id body
  note "MESSAGE_SENT" q.user_id m.id
  pure m

-- The two tests on the number of messages that a caller asks for.
abbrev pub clamp : ℕ → ℕ
clamp n = let m : ℕ = (if leb n 0 then 1 else n) in if ltb 10 m then 10 else m

unfoldable pub note_received : List Message → Q Done
note_received [] = pure tt
note_received (m ∷ ms) = do
  user ← ask (λ e. e.user)
  note "MESSAGE_RECEIVED" user m.id
  note_received ms

-- `ReceiveMessages`.
unfoldable pub receive : (ℕ → Bool) → ℕ → ℕ → Q (List Message)
receive locked queue_id wanted = do
  q ← get_queue queue_id
  messages ← receive_messages locked q.id (clamp wanted) q.visibility_timeout
  note_received messages
  pure messages

-- `DeleteMessage`.
unfoldable pub acknowledge : ℕ → ℕ → Q Done
acknowledge queue_id handle = do
  q ← get_queue queue_id
  delete_message q.id handle
  note "MESSAGE_DELETED" q.user_id handle

-- `PurgeQueue`.
unfoldable pub purge_queue : ℕ → Q Done
purge_queue queue_id = do
  q ← get_queue queue_id
  n ← purge_messages q.id
  note "QUEUE_PURGED" q.user_id q.id
  note "queue.purge" q.user_id q.id
