-- ===== src/Queue/Ownership.antt =====
-- internal/core/services/queue.go: who may use a queue, and what sending, purging and deleting do.
use mathlib.Core.Bool.{false≢true}
use thecloud.Prelude.{
  any-keep-not, keep-keep-not, ◌∙◌, subst, sym, ℕ, ◌≤◌, ◌<◌, Bool, true, false, Option, none, some,
  List, [], ◌∷◌, Text, keep, any, find?, length, All, ◌==◌, ◌&&◌, not, ◌≡◌, ◌≢◌, refl, inl, inr,
  arith, Option-cases, find?-true, if◌then◌else◌,
}
use thecloud.Errors.{plain}
use thecloud.Action.{Result, ok, err, World, Env, bump, resume, ◌>>◌, pure, note}
use thecloud.Queue.Types.{Queue, Message, Tables}
use thecloud.Queue.Repo.{
  receive_messages, delete_message, purge_messages, get_queue_stats, has_receipt,
}
use thecloud.Queue.Visibility.{receive_messages_bounds}
use thecloud.Queue.Service.{
  get_queue, delete_queue, send, clamp, note_received, receive, acknowledge, purge_queue,
}

-- The queue that a request of the environment's user finds.
abbrev pub owned : Env → ℕ → Tables → Option Queue
owned e id t = find? (λ (q : Queue). q.id == id && q.user_id == e.user) t.queues

-- `Failed e w o`: the call failed and the tables are as they were.
abbrev pub Refused : {A : Type 0} → World Tables → Result A × World Tables → Type 0
Refused {A} w o = (o.0 ≡ err plain) × (o.1.tables ≡ w.tables)

module _ (e : Env) (w : World Tables) (id : ℕ) where
  get_queue-Refused : owned e id w.tables ≡ none → Refused w (get_queue id e w)
  unfolding get_queue
  get_queue-Refused foreign = (ground arith, ground arith)

  -- A queue that the user does not own, or that is not there, is beyond every operation: each
  -- fails and changes no table.
  pub foreign_queue_safe :
      (locked : ℕ → Bool) (wanted handle : ℕ) (body : Text)
      → owned e id w.tables ≡ none
      → Refused w (get_queue id e w)
        × Refused w (delete_queue id e w)
        × Refused w (send id body e w)
        × Refused w (receive locked id wanted e w)
        × Refused w (acknowledge id handle e w)
        × Refused w (purge_queue id e w)
  unfolding delete_queue send receive acknowledge purge_queue
  foreign_queue_safe locked wanted handle body foreign =
      let (failed, same) = get_queue-Refused foreign in
      (
        (failed, same),
        (ground arith, ground arith),
        (ground arith, ground arith),
        (ground arith, ground arith),
        (ground arith, ground arith),
        (ground arith, ground arith),
      )

  -- A message over the queue's limit is refused before anything is written.
  pub send-too_large :
      (body : Text) {q : Queue}
      → owned e id w.tables ≡ some q
      → q.max_message_size < length body
      → Refused w (send id body e w)
  unfolding send get_queue
  send-too_large body found large = (ground arith, ground arith)

  note_received_ok : (ms : List Message) (w' : World Tables) → (note_received ms e w').0 ≡ ok tt
  unfolding note_received
  note_received_ok [] w' = refl
  note_received_ok (m ∷ ms) w' =
      ground (arith, note_received_ok ms (note "MESSAGE_RECEIVED" e.user m.id e w').1)

  receive_tail :
      (o : Result (List Message) × World Tables)
      → (resume (λ messages. note_received messages >> pure messages) e o).0 ≡ o.0
  receive_tail (ok ms, w') = ground (arith, note_received_ok ms w')
  receive_tail (err x, w') = refl

  -- A service call that returned has made the repository's call on the user's queue.
  receive_steps :
      (locked : ℕ → Bool) (wanted : ℕ) (ms : List Message)
      → (receive locked id wanted e w).0 ≡ ok ms
      → (q : Queue) × (owned e id w.tables ≡ some q)
        × ((receive_messages locked q.id (clamp wanted) q.visibility_timeout e (bump w)).0 ≡ ok ms)
  unfolding receive get_queue
  receive_steps locked wanted ms done = elim (Option-cases (owned e id w.tables)) [
    | inl foreign ↦ ground arith
    | inr (q, found) ↦ (
      q,
      found,
      ground (
        arith,
        receive_tail (receive_messages locked q.id (clamp wanted) q.visibility_timeout e (bump w)),
      ),
    )
  ]

  -- However many messages a caller asks for, at most ten come back, and at most as many as asked
  -- for, or one where that is 0; all are of the queue.
  pub receive_bounds :
      (locked : ℕ → Bool) (wanted : ℕ) (ms : List Message)
      → (receive locked id wanted e w).0 ≡ ok ms
      → (length ms ≤ 10)
        × (length ms ≤ (if wanted == 0 then 1 else wanted))
        × All (λ (m : Message). m.queue_id ≡ id) ms
  receive_bounds locked wanted ms done =
      let (q, found, inner) = receive_steps locked wanted ms done in
      let (few, own) =
        receive_messages_bounds locked q.id (clamp wanted) q.visibility_timeout e (bump w) ms
          inner in
      let same : q.id ≡ id = ground (
        arith,
        find?-true (λ (q : Queue). q.id == id && q.user_id == e.user) w.tables.queues q found,
      ) in
      (
        ground arith,
        ground arith,
        subst (λ (k : ℕ). All (λ (m : Message). m.queue_id ≡ k) ms) same own,
      )

  owned_id : (q : Queue) → owned e id w.tables ≡ some q → q.id ≡ id
  owned_id q found =
      ground (
        arith,
        find?-true (λ (q : Queue). q.id == id && q.user_id == e.user) w.tables.queues q found,
      )

  acknowledge_steps :
      (handle : ℕ) (w' : World Tables)
      → acknowledge id handle e w ≡ (ok tt, w')
      → (q : Queue) × (owned e id w.tables ≡ some q)
        × (any (has_receipt q.id handle) w.tables.messages ≡ true)
        × (w'.tables.messages ≡ keep (λ m. not (has_receipt q.id handle m)) w.tables.messages)
  unfolding acknowledge get_queue delete_message
  acknowledge_steps handle w' done = elim (Option-cases (owned e id w.tables)) [
    | inl foreign ↦ ground arith
    | inr (q, found) ↦ (q, found, ground arith, ground arith)
  ]

  -- An acknowledgement needs a message with the receipt handle.
  acknowledge-ne-ok :
      (handle : ℕ)
      → any (has_receipt id handle) w.tables.messages ≡ false
      → (acknowledge id handle e w).0 ≢ ok tt
  acknowledge-ne-ok handle missing done =
      let (q, found, here, _) =
        acknowledge_steps handle (acknowledge id handle e w).1 (ground arith) in
      false≢true (
        sym missing
        ∙ subst (λ (k : ℕ). any (has_receipt k handle) w.tables.messages ≡ true) (owned_id q found)
            here)

  purge_queue_steps :
      (w' : World Tables)
      → purge_queue id e w ≡ (ok tt, w')
      → (q : Queue) × (owned e id w.tables ≡ some q)
        × (w'.tables.messages ≡ keep (λ m. not (m.queue_id == q.id)) w.tables.messages)
  unfolding purge_queue get_queue purge_messages
  purge_queue_steps w' done = elim (Option-cases (owned e id w.tables)) [
    | inl foreign ↦ ground arith
    | inr (q, found) ↦ (q, found, ground arith)
  ]

module _ (e later : Env) (w w' : World Tables) (id : ℕ) where
  -- A receipt handle works once: after a successful acknowledgement no message of the queue has
  -- the handle, and a later acknowledgement of it fails, whoever asks.
  pub acknowledge_once :
      (handle : ℕ)
      → acknowledge id handle e w ≡ (ok tt, w')
      → (any (has_receipt id handle) w'.tables.messages ≡ false)
        × ((acknowledge id handle later w').0 ≢ ok tt)
  acknowledge_once handle done =
      let (q, found, here, left) = acknowledge_steps e w id handle w' done in
      let gone : any (has_receipt id handle) w'.tables.messages ≡ false =
        subst (λ (k : ℕ). any (has_receipt k handle) w'.tables.messages ≡ false)
          (owned_id e w id q found)
          (rw left (any-keep-not (has_receipt q.id handle) w.tables.messages)) in
      (gone, acknowledge-ne-ok later w' id handle gone)

  -- After a purge a queue has neither visible nor hidden messages, by any clock.
  pub get_queue_stats-purge :
      purge_queue id e w ≡ (ok tt, w')
      → later.fails w'.tick ≡ false
      → (get_queue_stats id later w').0 ≡ ok (0, 0)
  unfolding get_queue_stats
  get_queue_stats-purge done fine =
      let (q, found, left) = purge_queue_steps e w id w' done in
      let none_left : keep (λ (m : Message). m.queue_id == id) w'.tables.messages ≡ [] =
        subst (λ (k : ℕ). keep (λ (m : Message). m.queue_id == k) w'.tables.messages ≡ [])
          (owned_id e w id q found)
          (rw left (keep-keep-not (λ (m : Message). m.queue_id == q.id) w.tables.messages)) in
      rw (fine, none_left) refl
