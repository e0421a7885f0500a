-- ===== src/Infra/Storage/Snapshots.antt =====
-- The life of a snapshot in internal/core/services/snapshot.go, and what deleting a volume takes away.
use thecloud.Prelude.{
  true, false, some, find?, find?-true, find?-modify, ◌≡◌, refl, ◌⊎◌, arith, inl, inr,
}
use thecloud.Action.{Result, ok, err, is_ok, World, Env, Done, nil_id}
use thecloud.Infra.Types.{Volume, Snapshot, SnapshotStatus, Tables, Backend}
use thecloud.Infra.Storage.Repo.{is_snapshot, set_snapshot_columns, update_snapshot}
use thecloud.Infra.Storage.Service.{after_snapshot, perform_snapshot, finish_snapshot}

module _ {O : Type 0} (b : Backend O) (e : Env) where
  update_snapshot_lem :
      (s row : Snapshot) (w : World (Tables O))
      → find? (is_snapshot s.id s.user_id) w.tables.snapshots ≡ some row
      → e.fails w.tick ≡ false
      → find? (is_snapshot s.id s.user_id) (update_snapshot s e w).1.tables.snapshots
        ≡ some (set_snapshot_columns s row)
  unfolding update_snapshot
  update_snapshot_lem s row w found fine = ground (
    arith,
    fine,
    found,
    find?-true (is_snapshot s.id s.user_id) w.tables.snapshots row found,
    find?-modify (is_snapshot s.id s.user_id) (is_snapshot s.id s.user_id) (set_snapshot_columns s)
        w.tables.snapshots (λ x. refl),
  )

  perform_snapshot-snapshots :
      (v : Volume) (s : Snapshot) (w : World (Tables O))
      → (perform_snapshot b v s e w).1.tables.snapshots ≡ w.tables.snapshots
  unfolding perform_snapshot
  perform_snapshot-snapshots v s w = refl

-- If the row of a snapshot is there and the last query succeeds, the background task leaves it complete
-- where the backend has made the archive, and broken where it has not.
pub finish_snapshot-settles :
    {O : Type 0} (b : Backend O) (e : Env) (w : World (Tables O)) (v : Volume) (s row : Snapshot)
    → find? (is_snapshot s.id s.user_id) w.tables.snapshots ≡ some row
    → e.fails (perform_snapshot b v s (record e { user = nil_id }) w).1.tick ≡ false
    → (x : Snapshot) × (find?
          (is_snapshot s.id s.user_id)
          (finish_snapshot b v s e w).1.tables.snapshots
        ≡ some x)
      × (((is_ok (perform_snapshot b v s (record e { user = nil_id }) w).0 ≡ true)
            × (x.status ≡ SnapshotStatus.complete))
          ⊎ ((is_ok (perform_snapshot b v s (record e { user = nil_id }) w).0 ≡ false)
              × (x.status ≡ SnapshotStatus.broken)))
unfolding finish_snapshot
finish_snapshot-settles b e w v s row found fine =
    let e' : Env = record e { user = nil_id } in
    let made = perform_snapshot b v s e' w in
    let kept : find? (is_snapshot s.id s.user_id) made.1.tables.snapshots ≡ some row =
      rw (perform_snapshot-snapshots b e' v s w) found in
    let done : Snapshot = record s { status = after_snapshot made.0 } in
    (
      set_snapshot_columns done row,
      update_snapshot_lem b e' done row made.1 kept fine,
      settled made.0,
    )
  where
    settled :
        (r : Result Done)
        → ((is_ok r ≡ true) × (after_snapshot r ≡ SnapshotStatus.complete))
          ⊎ ((is_ok r ≡ false) × (after_snapshot r ≡ SnapshotStatus.broken))
    settled (ok d) = inl (refl, refl)
    settled (err x) = inr (refl, refl)
