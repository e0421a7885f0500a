-- ===== src/Queue/Types.antt =====
-- internal/core/domain/queue.go and the tables of the message queues. Integers of the options are
-- not negative; times are in seconds.
use thecloud.Prelude.{ℕ, Option, List, Text}

pub data QueueStatus : Type 0 where
  active deleting : QueueStatus

pub record Queue : Type 0 where
  pub id : ℕ
  pub user_id : ℕ
  pub name : Text
  pub visibility_timeout : ℕ
  pub retention_days : ℕ
  pub max_message_size : ℕ
  pub status : QueueStatus

-- A message; a row of `queue_messages` has no receipt handle before it was received.
pub record Message : Type 0 where
  pub id : ℕ
  pub queue_id : ℕ
  pub body : Text
  pub receipt_handle : Option ℕ
  pub visible_at : ℕ
  pub received_count : ℕ
  pub created_at : ℕ

pub record Tables : Type 0 where
  pub queues : List Queue
  pub messages : List Message

-- `ports.CreateQueueOptions`.
pub record CreateQueueOptions : Type 0 where
  pub visibility_timeout : Option ℕ
  pub retention_days : Option ℕ
  pub max_message_size : Option ℕ
