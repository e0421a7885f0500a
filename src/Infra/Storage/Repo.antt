-- ===== src/Infra/Storage/Repo.antt =====
-- internal/repositories/postgres/volume_repo.go and snapshot_repo.go, with the constraints of
-- migrations 008, 014 and 026. The errors of the driver go through as they are.
use thecloud.Prelude.{
  ℕ, Bool, Option, none, some, List, [], ◌∷◌, ◌++◌, Text, text_eq, keep, find?, any, modify, ◌==◌,
  ◌&&◌, ◌||◌, not, if◌then◌else◌,
}
use thecloud.Errors.{new, plain, not_found}
use thecloud.Action.{Result, ok, err, Action, Done, call}
use thecloud.Infra.Types.{Instance, Volume, Snapshot, Tables}
use thecloud.Infra.Network.Repo.{refers_to}
use thecloud.Infra.Compute.Repo.{is_some_row}

abbrev pub row_or_plain : {A : Type 0} → Option A → Result A
row_or_plain none = err plain
row_or_plain (some a) = ok a

abbrev pub is_volume : ℕ → ℕ → Volume → Bool
is_volume id user v = v.id == id && v.user_id == user

abbrev pub is_snapshot : ℕ → ℕ → Snapshot → Bool
is_snapshot id user s = s.id == id && s.user_id == user

-- The columns that `Update` sets.
abbrev pub set_volume_columns : Volume → Volume → Volume
set_volume_columns v row = record row {
  status = v.status;
  instance_id = v.instance_id;
  mount_path = v.mount_path;
}

abbrev pub set_snapshot_columns : Snapshot → Snapshot → Snapshot
set_snapshot_columns s row = record row { status = s.status; description = s.description }

-- What the constraints of `volumes` refuse: names are unique among all users.
abbrev pub refuses_volume : {O : Type 0} → Volume → Tables O → Bool
refuses_volume v t =
    any (λ (x : Volume). x.id == v.id || text_eq x.name v.name) t.volumes
    || not (is_some_row (λ id (i : Instance). i.id == id) t.instances v.instance_id)

abbrev pub inserted : {O : Type 0} → Volume → Tables O → Result Done × Tables O
inserted v t =
    if refuses_volume v t
    then (err plain, t)
    else (ok tt, record t { volumes = t.volumes ++ v ∷ [] })

module _ {O : Type 0} where
  -- `VolumeRepository.Create`.
  unfoldable pub create_volume_row : Volume → Action (Tables O) Done
  create_volume_row v = call (inserted v)

  -- `VolumeRepository.GetByID`.
  unfoldable pub get_volume_by_id : ℕ → Action (Tables O) Volume
  get_volume_by_id id e w =
      call (λ t. (row_or_plain (find? (is_volume id e.user) t.volumes), t)) e w

  -- `VolumeRepository.GetByName`.
  unfoldable pub get_volume_by_name : Text → Action (Tables O) Volume
  get_volume_by_name name e w =
      call
        (λ t. (
          row_or_plain
              (find? (λ (v : Volume). text_eq v.name name && v.user_id == e.user) t.volumes),
          t,
        ))
        e w

  -- `VolumeRepository.List`.
  unfoldable pub list_volume_rows : Action (Tables O) (List Volume)
  list_volume_rows e w =
      call (λ t. (ok (keep (λ (v : Volume). v.user_id == e.user) t.volumes), t)) e w

  -- `VolumeRepository.ListByInstanceID`.
  unfoldable pub list_by_instance : ℕ → Action (Tables O) (List Volume)
  list_by_instance inst e w =
      call
        (λ t. (
          ok (keep (λ (v : Volume). refers_to v.instance_id inst && v.user_id == e.user) t.volumes),
          t,
        ))
        e w

  -- `VolumeRepository.Update`: no error if there is no such row.
  unfoldable pub update_volume : Volume → Action (Tables O) Done
  update_volume v = call λ t.
      if any (is_volume v.id v.user_id) t.volumes
        && not (is_some_row (λ id (i : Instance). i.id == id) t.instances v.instance_id)
      then (err plain, t)
      else (
        ok tt,
        record t { volumes = modify (is_volume v.id v.user_id) (set_volume_columns v) t.volumes },
      )

  -- `VolumeRepository.Delete`, with the cascade to the snapshots.
  unfoldable pub delete_volume_row : ℕ → Action (Tables O) Done
  delete_volume_row id e w =
      call
        (λ t.
          if any (is_volume id e.user) t.volumes
          then (
            ok tt,
            record t {
              volumes = keep (λ v. not (is_volume id e.user v)) t.volumes;
              snapshots = keep (λ (s : Snapshot). not (s.volume_id == id)) t.snapshots;
            },
          )
          else (err (new not_found), t))
        e w

  -- `SnapshotRepository.Create`.
  unfoldable pub create_snapshot_row : Snapshot → Action (Tables O) Done
  create_snapshot_row s = call λ t.
      if any (λ (x : Snapshot). x.id == s.id) t.snapshots
        || not (any (λ (v : Volume). v.id == s.volume_id) t.volumes)
      then (err plain, t)
      else (ok tt, record t { snapshots = t.snapshots ++ s ∷ [] })

  -- `SnapshotRepository.GetByID`.
  unfoldable pub get_snapshot_by_id : ℕ → Action (Tables O) Snapshot
  get_snapshot_by_id id e w =
      call (λ t. (row_or_plain (find? (is_snapshot id e.user) t.snapshots), t)) e w

  -- `ListByVolumeID`.
  unfoldable pub list_by_volume : ℕ → Action (Tables O) (List Snapshot)
  list_by_volume volume e w =
      call
        (λ t. (
          ok (keep (λ (s : Snapshot). s.volume_id == volume && s.user_id == e.user) t.snapshots),
          t,
        ))
        e w

  -- `ListByUserID`.
  unfoldable pub list_snapshots_of : ℕ → Action (Tables O) (List Snapshot)
  list_snapshots_of user =
      call λ t. (ok (keep (λ (s : Snapshot). s.user_id == user) t.snapshots), t)

  -- `SnapshotRepository.Update`: no error if there is no such row.
  unfoldable pub update_snapshot : Snapshot → Action (Tables O) Done
  update_snapshot s = call λ t. (
    ok tt,
    record t {
      snapshots = modify (is_snapshot s.id s.user_id) (set_snapshot_columns s) t.snapshots;
    },
  )

  -- `SnapshotRepository.Delete`.
  unfoldable pub delete_snapshot_row : ℕ → Action (Tables O) Done
  delete_snapshot_row id e w =
      call
        (λ t.
          if any (is_snapshot id e.user) t.snapshots
          then (
            ok tt,
            record t { snapshots = keep (λ s. not (is_snapshot id e.user s)) t.snapshots },
          )
          else (err (new not_found), t))
        e w
