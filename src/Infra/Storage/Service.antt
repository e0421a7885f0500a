-- ===== src/Infra/Storage/Service.antt =====
-- internal/core/services/volume.go and snapshot.go.
use thecloud.Prelude.{ℕ, Bool, true, false, none, List, [], Text, not, if◌then◌else◌}
use thecloud.Prelude.Int.{ℤ}
use thecloud.Errors.{new, wrap, plain, internal, invalid_input}
use thecloud.Action.{
  Result, ok, err, Action, Done, pure, raise, raise_if, ask, attempt, ignore, map_error, with_user,
  new_id, note, nil_id, ◌>>=◌, ◌>>◌,
}
use thecloud.Infra.Types.{Volume, VolumeStatus, Snapshot, SnapshotStatus, Tables, Backend}
use thecloud.Infra.Storage.Repo.{
  create_volume_row, get_volume_by_id, list_volume_rows, delete_volume_row, create_snapshot_row,
  get_snapshot_by_id, list_snapshots_of, update_snapshot, delete_snapshot_row,
}
use thecloud.Infra.Compute.Launch.{outside, docker_volume, find_volume}

abbrev pub is_in_use : VolumeStatus → Bool
is_in_use VolumeStatus.in_use = true
is_in_use VolumeStatus.available = false
is_in_use VolumeStatus.deleting = false

abbrev pub is_complete : SnapshotStatus → Bool
is_complete SnapshotStatus.complete = true
is_complete SnapshotStatus.creating = false
is_complete SnapshotStatus.removing = false
is_complete SnapshotStatus.broken = false

-- The status after `performSnapshot`.
abbrev pub after_snapshot : {A : Type 0} → Result A → SnapshotStatus
after_snapshot (ok a) = SnapshotStatus.complete
after_snapshot (err x) = SnapshotStatus.broken

abbrev pub new_volume : ℕ → ℕ → Text → ℤ → Volume
new_volume id user name size = record {
  id = id;
  user_id = user;
  name = name;
  size_gb = size;
  status = VolumeStatus.available;
  instance_id = none;
  mount_path = [];
}

module _ {O : Type 0} (b : Backend O) where
  -- The row of a new volume, whose storage is deleted again without one.
  unfoldable pub store_volume : Volume → Action (Tables O) Done
  store_volume v = do
    stored ← attempt (create_volume_row v)
    elim stored [
      | ok d ↦ pure tt
      | err x ↦ do ignore (outside (b.delete_volume (docker_volume b v.id))); raise x
    ]

  -- The steps of `CreateVolume` for a volume with its identifier and owner.
  unfoldable pub provision : Volume → Action (Tables O) Volume
  provision v = do
    map_error (wrap internal) (outside (b.create_volume (docker_volume b v.id)))
    store_volume v
    note "VOLUME_CREATE" v.user_id v.id
    note "volume.create" v.user_id v.id
    pure v

  -- `CreateVolume`.
  unfoldable pub create_volume : Text → ℤ → Action (Tables O) Volume
  create_volume name size = do
    id ← new_id
    user ← ask (λ e. e.user)
    provision (new_volume id user name size)

  -- `ListVolumes`.
  unfoldable pub list_volumes : Action (Tables O) (List Volume)
  list_volumes = list_volume_rows

  -- `DeleteVolume`: a failure of the backend is dropped. `GetVolume` is `find_volume`.
  unfoldable pub delete_volume : Text → Action (Tables O) Done
  delete_volume id_or_name = do
    v ← find_volume b id_or_name
    raise_if (is_in_use v.status) (new invalid_input)
    ignore (outside (b.delete_volume (docker_volume b v.id)))
    delete_volume_row v.id
    note "VOLUME_DELETE" v.user_id v.id
    note "volume.delete" v.user_id v.id

  -- `CreateSnapshot` up to its return: the snapshot, and the volume that the background task reads.
  unfoldable pub create_snapshot : ℕ → Text → Action (Tables O) (Snapshot × Volume)
  create_snapshot volume description = do
    v ← get_volume_by_id volume
    id ← new_id
    user ← ask (λ e. e.user)
    let s : Snapshot = record {
      id = id;
      user_id = user;
      volume_id = volume;
      volume_name = v.name;
      size_gb = v.size_gb;
      status = SnapshotStatus.creating;
      description = description;
    }
    create_snapshot_row s
    note "SNAPSHOT_CREATE" user id
    note "snapshot.create" user id
    pure (s, v)

  -- `performSnapshot`.
  unfoldable pub perform_snapshot : Volume → Snapshot → Action (Tables O) Done
  perform_snapshot v s =
      map_error (λ x. plain)
        (outside (b.create_volume_snapshot (docker_volume b v.id) (b.snapshot_path s.id)))

  -- The background task of `CreateSnapshot`, whose context has no user.
  unfoldable pub finish_snapshot : Volume → Snapshot → Action (Tables O) Done
  finish_snapshot v s = with_user nil_id (do
    r ← attempt (perform_snapshot v s)
    ignore (update_snapshot (record s { status = after_snapshot r })))

  -- `ListSnapshots`.
  unfoldable pub list_snapshots : Action (Tables O) (List Snapshot)
  list_snapshots = do user ← ask (λ e. e.user); list_snapshots_of user

  -- `DeleteSnapshot`.
  unfoldable pub delete_snapshot : ℕ → Action (Tables O) Done
  delete_snapshot id = do
    s ← get_snapshot_by_id id
    ignore (outside (b.remove_file (b.snapshot_path s.id)))
    delete_snapshot_row id
    note "SNAPSHOT_DELETE" s.user_id id
    note "snapshot.delete" s.user_id id

  -- The storage of a restored volume, which is deleted again if the snapshot does not unpack.
  unfoldable pub unpack_snapshot : Volume → Snapshot → Action (Tables O) Done
  unpack_snapshot v s = do
    r ← attempt (outside (b.restore_volume_snapshot (docker_volume b v.id) (b.snapshot_path s.id)))
    elim r [
      | ok d ↦ pure tt
      | err x ↦ do ignore (outside (b.delete_volume (docker_volume b v.id))); raise plain
    ]

  -- The steps of `RestoreSnapshot` for a volume with its identifier.
  unfoldable pub restore_into : Snapshot → Volume → Action (Tables O) Volume
  restore_into s v = do
    map_error (wrap internal) (outside (b.create_volume (docker_volume b v.id)))
    unpack_snapshot v s
    store_volume v
    note "VOLUME_RESTORE" v.user_id v.id
    note "volume.restore" v.user_id v.id
    pure v

  -- The rest of `RestoreSnapshot` for a snapshot that is complete.
  unfoldable pub restore_complete : Snapshot → Text → Action (Tables O) Volume
  restore_complete s name = do id ← new_id; restore_into s (new_volume id s.user_id name s.size_gb)

  -- `RestoreSnapshot` after the snapshot was read.
  unfoldable pub restore_found : Snapshot → Text → Action (Tables O) Volume
  restore_found s name =
      if not (is_complete s.status) then raise (new invalid_input) else restore_complete s name

  -- `RestoreSnapshot`.
  unfoldable pub restore_snapshot : ℕ → Text → Action (Tables O) Volume
  restore_snapshot id name = do s ← get_snapshot_by_id id; restore_found s name
