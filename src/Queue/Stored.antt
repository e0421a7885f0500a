-- ===== src/Queue/Stored.antt =====
-- What ReceiveMessages of internal/repositories/postgres/queue_repo.go returns is what it stores.
use thecloud.Prelude.{
  ℕ, zero, suc, ◌+◌, Bool, true, false, none, some, List, [], ◌∷◌, map, keep, take, any, find?,
  has_key, Keyed, Keyed-keep, find?-self, find?-true, ◌==◌, All, All-keep, All-take, All-imp, ◌≡◌,
  refl, ap, sym, ◌∙◌, inl, inr, arith, Bool-cases, Option-cases, ◌⊎◌, subst,
}
use thecloud.Action.{ok, World, Env, bump}
use thecloud.Queue.Types.{Message, Tables}
use thecloud.Queue.Repo.{receivable, stamp, mark, receive_messages}
use thecloud.Queue.Receive.{
  Stamped, mark_by, mark_by_id, has_id, selected, hidden_until, receive_messages_lem,
}

abbrev pub message_key : Message → ℕ
message_key m = m.id

find?-map :
    (f : Message → Message) (k : ℕ) (rows : List Message)
    → ((r : Message) → (f r).id ≡ r.id)
    → find? (has_key message_key k) (map f rows)
      ≡ (elim (find? (has_key message_key k) rows) [ none ↦ none | some r ↦ some (f r) ])
find?-map f k [] same = refl
find?-map f k (r ∷ rows) same = ground (arith, same r, find?-map f k rows same)

pub mark_by-other : (ms : List Message) (r : Message) → has_id ms r.id ≡ false → mark_by ms r ≡ r
mark_by-other [] r h = refl
mark_by-other (m ∷ ms) r h = ground (arith, mark_by-other ms r)

any-take :
    (q : Message → Bool) (n : ℕ) (rows : List Message)
    → any q rows ≡ false
    → any q (take n rows) ≡ false
any-take q zero rows h = refl
any-take q (suc n) [] h = refl
any-take q (suc n) (r ∷ rows) h = ground (arith, any-take q n rows)

Keyed-take :
    (n : ℕ) (rows : List Message) → Keyed message_key rows → Keyed message_key (take n rows)
Keyed-take zero rows k = tt
Keyed-take (suc n) [] k = tt
Keyed-take (suc n) (r ∷ rows) k =
    (any-take (has_key message_key r.id) n rows k.0, Keyed-take n rows k.1)

has_id-Stamped :
    (v id : ℕ) (rows ms : List Message)
    → Stamped v rows ms
    → any (has_key message_key id) rows ≡ false
    → has_id ms id ≡ false
has_id-Stamped v id [] [] s h = refl
has_id-Stamped v id [] (m ∷ ms) s h = absurd s
has_id-Stamped v id (r ∷ rows) [] s h = absurd s
has_id-Stamped v id (r ∷ rows) (m ∷ ms) s h = ground (arith, s.0, has_id-Stamped v id rows ms s.5)

mark-Stamped :
    (v : ℕ) (r m : Message)
    → m.visible_at ≡ v
    → m ≡ record r {
      receipt_handle = m.receipt_handle;
      visible_at = v;
      received_count = r.received_count + 1;
    }
    → mark m r ≡ m
mark-Stamped v r m until whole =
    ap
      (λ (t : ℕ). record r {
        receipt_handle = m.receipt_handle;
        visible_at = t;
        received_count = r.received_count + 1;
      })
      until
    ∙ sym whole

-- An update of another message does not matter.
widen :
    (m : Message) (ms xs table : List Message)
    → has_id xs m.id ≡ false
    → All
        (λ x.
          (r : Message) × (find? (has_key message_key x.id) table ≡ some r) × (mark_by ms r ≡ x))
        xs
    → All
        (λ x.
          (r : Message) × (find? (has_key message_key x.id) table ≡ some r)
          × (mark_by (m ∷ ms) r ≡ x))
        xs
widen m ms [] table h all = tt
widen m ms (x ∷ xs) table h all =
    let (r, found, marked) = all.0 in
    let other : (r.id == m.id) ≡ false =
      ground (arith, find?-true (has_key message_key x.id) table r found, h) in
    ((r, found, rw (other, mark_by) marked), widen m ms xs table (ground arith) all.1)

-- The updates make of the row of a message what was returned.
mark_by-Stamped :
    (v : ℕ) (rows ms table : List Message)
    → Keyed message_key rows
    → Stamped v rows ms
    → All (λ r. find? (has_key message_key r.id) table ≡ some r) rows
    → All
        (λ m.
          (r : Message) × (find? (has_key message_key m.id) table ≡ some r) × (mark_by ms r ≡ m))
        ms
mark_by-Stamped v [] [] table k s found = tt
mark_by-Stamped v [] (m ∷ ms) table k s found = absurd s
mark_by-Stamped v (r ∷ rows) [] table k s found = absurd s
mark_by-Stamped v (r ∷ rows) (m ∷ ms) table k s found =
    let none_later : has_id ms r.id ≡ false = has_id-Stamped v r.id rows ms s.5 k.0 in
    let same : (r.id == m.id) ≡ true = ground (arith, s.0) in
    let first : mark_by (m ∷ ms) r ≡ m =
      rw (same, mark_by)
        (rw (mark-Stamped v r m s.3 s.4.1)
          (mark_by-other ms m (ground (arith, s.0, none_later)))) in
    (
      (r, rw s.0 found.0, first),
      widen m ms ms table (ground (arith, s.0, none_later))
          (mark_by-Stamped v rows ms table k.1 s.5 found.1),
    )

stamp-issued :
    (visible : ℕ) (rows : List Message) (e : Env) (w : World Tables)
    → (ms : List Message) × ((stamp visible rows e w).0 ≡ ok ms)
      × All (λ m. (n : ℕ) × (m.receipt_handle ≡ some (e.fresh n))) ms
unfolding stamp
stamp-issued visible [] e w = ([], refl, tt)
stamp-issued visible (r ∷ rows) e w =
    let (ms, returned, issued) = stamp-issued visible rows e (bump w) in
    let m : Message = record r {
      receipt_handle = some (e.fresh w.tick);
      visible_at = visible;
      received_count = r.received_count + 1;
    } in
    (m ∷ ms, ground arith, ((w.tick, refl), issued))

stored_as :
    (ms xs table : List Message)
    → All
        (λ x.
          (r : Message) × (find? (has_key message_key x.id) table ≡ some r) × (mark_by ms r ≡ x))
        xs
    → All (λ x. find? (has_key message_key x.id) (map (mark_by ms) table) ≡ some x) xs
stored_as ms [] table all = tt
stored_as ms (x ∷ xs) table all =
    let (r, found, marked) = all.0 in
    (
      rw (find?-map (mark_by ms) x.id table (mark_by_id ms), found, marked) refl,
      stored_as ms xs table all.1,
    )

untouched :
    (id : ℕ) (ms table : List Message)
    → has_id ms id ≡ false
    → find? (has_key message_key id) (map (mark_by ms) table) ≡ find? (has_key message_key id) table
untouched id ms table other = elim (Option-cases (find? (has_key message_key id) table)) [
  | inl missing ↦ rw (find?-map (mark_by ms) id table (mark_by_id ms), missing) refl
  | inr (r, found) ↦
      let mine : (r.id == id) ≡ true = find?-true (has_key message_key id) table r found in
      let same : mark_by ms r ≡ r = mark_by-other ms r (ground (arith, mine, other)) in
      rw (find?-map (mark_by ms) id table (mark_by_id ms), found, same) refl
]

module _ (locked : ℕ → Bool) (queue_id limit timeout : ℕ) (e : Env) (w : World Tables) where
  issued :
      (ms : List Message)
      → (receive_messages locked queue_id limit timeout e w).0 ≡ ok ms
      → All (λ m. (n : ℕ) × (m.receipt_handle ≡ some (e.fresh n))) ms
  unfolding receive_messages
  issued ms done =
      let (own, returned, all) =
        stamp-issued (hidden_until locked queue_id limit timeout e w)
          (selected locked queue_id limit timeout e w) e (bump (bump (bump w))) in
      let same : own ≡ ms = ground arith in
      subst (All (λ m. (n : ℕ) × (m.receipt_handle ≡ some (e.fresh n)))) same all

  -- If the identifiers of messages are a key, a call of `ReceiveMessages` that returns gives the rows
  -- that it selected, each with a receipt handle that it has drawn, hidden until the timeout, and
  -- counted once more; the row of each is stored exactly as it is returned, and the row of any other
  -- identifier stays as it was.
  pub receive_messages-stores :
      (ms : List Message)
      → Keyed message_key w.tables.messages
      → (receive_messages locked queue_id limit timeout e w).0 ≡ ok ms
      → (let rows = (receive_messages locked queue_id limit timeout e w).1.tables.messages in
          Stamped
            (e.clock (suc (suc w.tick)) + timeout)
            (take limit
              (keep (receivable locked queue_id (e.clock (suc w.tick))) w.tables.messages))
            ms
          × All (λ m. (n : ℕ) × (m.receipt_handle ≡ some (e.fresh n))) ms
          × All (λ m. find? (has_key message_key m.id) rows ≡ some m) ms
          × ((id : ℕ)
              → (has_id ms id ≡ true)
                ⊎ (find? (has_key message_key id) rows
                    ≡ find? (has_key message_key id) w.tables.messages)))
  receive_messages-stores ms k done =
      let (stamped, written, kept) =
        receive_messages_lem locked queue_id limit timeout e w ms done in
      let v = hidden_until locked queue_id limit timeout e w in
      let visible = keep (receivable locked queue_id (e.clock (suc w.tick))) w.tables.messages in
      let own = find?-self message_key w.tables.messages k in
      let there =
        All-take (λ r. find? (has_key message_key r.id) w.tables.messages ≡ some r) limit visible
          (All-keep (λ r. find? (has_key message_key r.id) w.tables.messages ≡ some r)
            (receivable locked queue_id (e.clock (suc w.tick))) w.tables.messages
            (All-imp _ _ w.tables.messages (λ r h _. h) own)) in
      let marked =
        mark_by-Stamped v (take limit visible) ms w.tables.messages
          (Keyed-take limit visible (
            Keyed-keep message_key (receivable locked queue_id (e.clock (suc w.tick)))
              w.tables.messages k))
          stamped there in
      (
        stamped,
        issued ms done,
        rw written (stored_as ms ms w.tables.messages marked),
        rw written (λ id. elim (Bool-cases (has_id ms id)) [
          | inl one ↦ inl one
          | inr other ↦ inr (untouched id ms w.tables.messages other)
        ]),
      )
