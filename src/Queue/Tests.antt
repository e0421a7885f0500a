-- ===== src/Queue/Tests.antt =====
-- Two queues of different users, with two messages waiting in the first.
use thecloud.Prelude.{
  ℕ, ◌+◌, ◌⊎◌, Bool, true, false, none, some, List, [], ◌∷◌, any, find?, has_key, Text, text, All,
  ◌≡◌, ◌≢◌, refl, arith,
}
use thecloud.Action.{ok, World, Env}
use thecloud.Queue.Types.{Queue, Message, Tables, active}
use thecloud.Queue.Repo.{
  receive_messages, stamp, mark_all, has_receipt, send_message, delete_message, purge_messages,
}
use thecloud.Queue.Service.{get_queue, delete_queue, send, receive, acknowledge, purge_queue}
use thecloud.Queue.Receive.{Stamped, has_id}
use thecloud.Queue.Exclusive.{receive_messages_exclusive, Traffic, Before}
use thecloud.Queue.Stored.{message_key, receive_messages-stores}
use thecloud.Queue.Ownership.{Refused, foreign_queue_safe, acknowledge_once}

abbrev jobs : Queue
jobs = record {
  id = 1;
  user_id = 7;
  name = text "jobs";
  visibility_timeout = 30;
  retention_days = 4;
  max_message_size = 4;
  status = active;
}

abbrev mail : Queue
mail = record {
  id = 2;
  user_id = 8;
  name = text "mail";
  visibility_timeout = 30;
  retention_days = 4;
  max_message_size = 4;
  status = active;
}

abbrev waiting : ℕ → Text → Message
waiting id body = record {
  id = id;
  queue_id = 1;
  body = body;
  receipt_handle = none;
  visible_at = 10;
  received_count = 0;
  created_at = 10;
}

-- A message that somebody holds under the receipt handle 60.
abbrev held : Message
held = record {
  id = 13;
  queue_id = 1;
  body = text "c";
  receipt_handle = some 60;
  visible_at = 5000;
  received_count = 1;
  created_at = 10;
}

abbrev start : World Tables
start = record {
  tables = record {
    queues = jobs ∷ mail ∷ [];
    messages = waiting 11 (text "a") ∷ waiting 12 (text "b") ∷ held ∷ [];
  };
  journal = [];
  tick = 0;
}

abbrev quiet : Env
quiet = record { fails = λ n. false; clock = λ n. 1000; fresh = λ n. 100 + n; user = 7 }

abbrev unlocked : ℕ → Bool
unlocked id = false

-- What the call returns that takes one message.
abbrev first : List Message
first =
    record (waiting 11 (text "a")) {
      receipt_handle = some 103;
      visible_at = 1030;
      received_count = 1;
    }
    ∷ []

-- What another user does while the first message is taken: everything visible is taken for a single
-- second, a message is sent and one acknowledged.
abbrev traffic : List (Env × Traffic)
traffic =
    (quiet, Traffic.receive unlocked 1 5 1)
    ∷ (quiet, Traffic.send 1 (text "d"))
    ∷ (quiet, Traffic.acknowledge 1 60)
    ∷ (quiet, Traffic.purge 2)
    ∷ []

-- What the call returns that comes a little later.
abbrev second : List Message
second =
    record (waiting 12 (text "b")) {
      receipt_handle = some 123;
      visible_at = 1051;
      received_count = 2;
    }
    ∷ []

abbrev soon : Env
soon = record quiet { clock = λ n. 1021 }

receive_messages-stores_example :
    Stamped 1030 (waiting 11 (text "a") ∷ []) first
    × All (λ (m : Message). (n : ℕ) × (m.receipt_handle ≡ some (100 + n))) first
    × All
        (λ (m : Message).
          find?
            (has_key message_key m.id)
            (receive_messages unlocked 1 1 30 quiet start).1.tables.messages
          ≡ some m)
        first
    × ((id : ℕ)
        → (has_id first id ≡ true)
          ⊎ (find?
                (has_key message_key id)
                (receive_messages unlocked 1 1 30 quiet start).1.tables.messages
              ≡ find? (has_key message_key id) start.tables.messages))
unfolding receive_messages stamp mark_all
receive_messages-stores_example =
    receive_messages-stores unlocked 1 1 30 quiet start first (refl, (refl, (refl, tt))) refl

early : Before first 1030 quiet
early = (λ n. omega arith, λ n. ground arith)

receive_messages_exclusive_example : All (λ (m : Message). has_id first m.id ≡ false) second
unfolding receive_messages stamp mark_all send_message delete_message purge_messages
receive_messages_exclusive_example =
    receive_messages_exclusive unlocked 1 1 30 quiet start first traffic unlocked 1 1 30 soon second
      refl (early, (early, (early, (early, tt)))) (λ n. omega arith) refl

foreign_queue_safe_example :
    Refused start (get_queue 2 quiet start)
    × Refused start (delete_queue 2 quiet start)
    × Refused start (send 2 (text "x") quiet start)
    × Refused start (receive unlocked 2 3 quiet start)
    × Refused start (acknowledge 2 60 quiet start)
    × Refused start (purge_queue 2 quiet start)
foreign_queue_safe_example = foreign_queue_safe quiet start 2 unlocked 3 60 (text "x") refl

abbrev taken : List Message
taken =
    record (waiting 11 (text "a")) {
      receipt_handle = some 104;
      visible_at = 1030;
      received_count = 1;
    }
    ∷ []

acknowledge_once_example :
    (any (has_receipt 1 60) (acknowledge 1 60 quiet start).1.tables.messages ≡ false)
    × ((acknowledge 1 60 quiet (acknowledge 1 60 quiet start).1).0 ≢ ok tt)
unfolding acknowledge get_queue delete_message
acknowledge_once_example =
    acknowledge_once quiet quiet start (acknowledge 1 60 quiet start).1 1 60 refl
