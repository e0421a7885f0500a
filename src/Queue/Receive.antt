-- ===== src/Queue/Receive.antt =====
-- `ReceiveMessages` of internal/repositories/postgres/queue_repo.go: what a call returns, what it
-- writes, and that nobody receives a message again before its visibility timeout.
use thecloud.Prelude.{
  subst, ℕ, suc, ◌+◌, Bool, true, some, List, [], ◌∷◌, map, keep, take, any, modify, All, ◌==◌,
  if◌then◌else◌, ◌≡◌, refl, ap, inl, inr, arith, Bool-cases,
}
use thecloud.Action.{Result, ok, World, Env, bump}
use thecloud.Queue.Types.{Message, Tables}
use thecloud.Queue.Repo.{receivable, stamp, mark, mark_all, receive_messages}

-- The messages that a call returns for the rows that it read: the same messages, counted once
-- more, to be hidden until `visible`, with a receipt handle of their own.
abbrev pub Stamped : ℕ → List Message → List Message → Type 0
Stamped visible [] [] = Unit {0}
Stamped visible [] (m ∷ ms) = ⊥
Stamped visible (r ∷ rows) [] = ⊥
Stamped visible (r ∷ rows) (m ∷ ms) =
    (m.id ≡ r.id)
    × (m.queue_id ≡ r.queue_id)
    × (m.body ≡ r.body)
    × (m.visible_at ≡ visible)
    × ((m.received_count ≡ r.received_count + 1)
        × (m ≡ record r {
          receipt_handle = m.receipt_handle;
          visible_at = visible;
          received_count = r.received_count + 1;
        }))
    × Stamped visible rows ms

-- The loop never fails, and touches no table.
stamp_lem :
    (visible : ℕ) (rows : List Message) (e : Env) (w : World Tables)
    → (ms : List Message) × ((stamp visible rows e w).0 ≡ ok ms)
      × Stamped visible rows ms
      × ((stamp visible rows e w).1.tables ≡ w.tables)
unfolding stamp
stamp_lem visible [] e w = ([], refl, tt, refl)
stamp_lem visible (r ∷ rows) e w =
    let (ms, returned, stamped, same) = stamp_lem visible rows e (bump w) in
    let m : Message = record r {
      receipt_handle = some (e.fresh w.tick);
      visible_at = visible;
      received_count = r.received_count + 1;
    } in
    (m ∷ ms, ground arith, (refl, refl, refl, refl, (refl, refl), stamped), ground arith)

-- What the updates make of one row.
abbrev pub mark_by : List Message → Message → Message
mark_by [] row = row
mark_by (m ∷ ms) row = mark_by ms (if row.id == m.id then mark m row else row)

map-mark_by_nil : (rows : List Message) → map (mark_by []) rows ≡ rows
map-mark_by_nil [] = refl
map-mark_by_nil (r ∷ rows) = ap (λ (rs : List Message). r ∷ rs) (map-mark_by_nil rows)

map-mark_by-modify :
    (m : Message) (ms rows : List Message)
    → map (mark_by ms) (modify (λ (row : Message). row.id == m.id) (mark m) rows)
      ≡ map (mark_by (m ∷ ms)) rows
map-mark_by-modify m ms [] = refl
map-mark_by-modify m ms (r ∷ rows) =
    ap (λ (rs : List Message). mark_by (m ∷ ms) r ∷ rs) (map-mark_by-modify m ms rows)

mark_all_lem :
    (ms : List Message) (e : Env) (w : World Tables)
    → (mark_all ms e w).0 ≡ ok tt
    → (mark_all ms e w).1.tables ≡ record w.tables { messages = map (mark_by ms) w.tables.messages }
unfolding mark_all
mark_all_lem [] e w h = rw map-mark_by_nil refl
mark_all_lem (m ∷ ms) e w h = elim (Bool-cases (e.fails w.tick)) [
  | inl failed ↦ ground arith
  | inr fine ↦ ground (
    arith,
    mark_all_lem ms e (
        bump (record w {
          tables = record w.tables {
            messages = modify (λ (row : Message). row.id == m.id) (mark m) w.tables.messages;
          };
        })),
    map-mark_by-modify m ms w.tables.messages,
  )
]

abbrev pub has_id : List Message → ℕ → Bool
has_id ms id = any (λ (m : Message). m.id == id) ms

pub mark_by_id : (ms : List Message) (row : Message) → (mark_by ms row).id ≡ row.id
mark_by_id [] row = refl
mark_by_id (m ∷ ms) row = ground (arith, mark_by_id ms (if row.id == m.id then mark m row else row))

mark_by_stays :
    (visible : ℕ) (ms : List Message) (row : Message)
    → All (λ (m : Message). m.visible_at ≡ visible) ms
    → row.visible_at ≡ visible
    → (mark_by ms row).visible_at ≡ visible
mark_by_stays visible [] row hidden h = h
mark_by_stays visible (m ∷ ms) row hidden h =
    mark_by_stays visible ms (if row.id == m.id then mark m row else row) hidden.1 (ground arith)

-- A row whose message was received is hidden until `visible`.
pub mark_by_hides :
    (visible : ℕ) (ms : List Message) (row : Message)
    → All (λ (m : Message). m.visible_at ≡ visible) ms
    → has_id ms row.id ≡ true
    → (mark_by ms row).visible_at ≡ visible
mark_by_hides visible [] row hidden h = cc
mark_by_hides visible (m ∷ ms) row hidden h = elim (Bool-cases (row.id == m.id)) [
  | inl same ↦ rw (same, mark_by) (mark_by_stays visible ms (mark m row) hidden.1 hidden.0)
  | inr other ↦ rw (other, mark_by) (mark_by_hides visible ms row hidden.1 (ground arith))
]

module _ (locked : ℕ → Bool) (queue_id limit timeout : ℕ) (e : Env) (w : World Tables) where
  -- The rows that the `SELECT` returns, and the time until which they are hidden.
  abbrev pub selected : List Message
  selected = take limit (keep (receivable locked queue_id (e.clock (suc w.tick))) w.tables.messages)

  abbrev pub hidden_until : ℕ
  hidden_until = e.clock (suc (suc w.tick)) + timeout

  abbrev pub outcome : Result (List Message) × World Tables
  outcome = receive_messages locked queue_id limit timeout e w

  at_select : World Tables
  at_select = bump (bump (bump w))

  stamped_rows :
      (ms : List Message) × ((stamp hidden_until selected e at_select).0 ≡ ok ms)
      × Stamped hidden_until selected ms
      × ((stamp hidden_until selected e at_select).1.tables ≡ w.tables)
  unfolding at_select
  stamped_rows = stamp_lem hidden_until selected e at_select

  steps :
      (ms : List Message)
      → outcome.0 ≡ ok ms
      → (stamped_rows.0 ≡ ms)
        × ((mark_all ms e (stamp hidden_until selected e at_select).1).0 ≡ ok tt)
        × (outcome.1.tables ≡ (mark_all ms e (stamp hidden_until selected e at_select).1).1.tables)
  unfolding receive_messages at_select
  steps ms done = ground (arith, stamped_rows.1)

  -- A call that returns messages returns the rows that it selected, stamped, and has written the
  -- same stamps to these rows and to no other.
  pub receive_messages_lem :
      (ms : List Message)
      → outcome.0 ≡ ok ms
      → Stamped hidden_until selected ms
        × (outcome.1.tables.messages ≡ map (mark_by ms) w.tables.messages)
        × (outcome.1.tables.queues ≡ w.tables.queues)
  receive_messages_lem ms done =
      let (same_ms, marked, final) = steps ms done in
      let (_, returned, stamped, same) = stamped_rows in
      let written = mark_all_lem ms e (stamp hidden_until selected e at_select).1 marked in
      (
        subst (Stamped hidden_until selected) same_ms stamped,
        rw (final, written, same) refl,
        rw (final, written, same) refl,
      )
