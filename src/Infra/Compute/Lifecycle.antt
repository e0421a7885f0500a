-- ===== src/Infra/Compute/Lifecycle.antt =====
-- The rest of internal/core/services/instance.go: reading, stopping and terminating an instance.
use thecloud.Prelude.{ℕ, Bool, true, false, none, some, List, [], ◌∷◌, Text, text_eq, if◌then◌else◌}
use thecloud.Errors.{new, wrap, internal, instance_not_running}
use thecloud.Action.{Action, Done, pure, raise_if, ignore, map_error, note, ◌>>=◌, ◌>>◌}
use thecloud.Infra.Types.{Instance, InstanceStatus, Volume, VolumeStatus, Tables, Backend}
use thecloud.Infra.Compute.Repo.{
  get_instance_by_id, get_instance_by_name, list_instance_rows, update_instance,
  delete_instance_row,
}
use thecloud.Infra.Storage.Repo.{list_by_instance, update_volume}
use thecloud.Infra.Compute.Launch.{outside, container_name}

abbrev pub is_stopped : InstanceStatus → Bool
is_stopped InstanceStatus.stopped = true
is_stopped InstanceStatus.starting = false
is_stopped InstanceStatus.running = false
is_stopped InstanceStatus.faulty = false
is_stopped InstanceStatus.deleted = false

-- What a volume becomes when its instance goes.
abbrev pub freed : Volume → Volume
freed v = record v { status = VolumeStatus.available; instance_id = none; mount_path = [] }

-- The loop over the volumes of an instance, which goes on after a failure.
unfoldable pub release_all : {O : Type 0} → List Volume → Action (Tables O) Done
release_all [] = pure tt
release_all (v ∷ vs) = do ignore (update_volume (freed v)); release_all vs

-- `releaseAttachedVolumes`, and `ReleaseVolumesForInstance` of volume.go.
unfoldable pub release_attached_volumes : {O : Type 0} → ℕ → Action (Tables O) Done
release_attached_volumes inst = do volumes ← list_by_instance inst; release_all volumes

module _ {O : Type 0} (b : Backend O) where
  -- `GetInstance`.
  unfoldable pub get_instance : Text → Action (Tables O) Instance
  get_instance id_or_name = elim (b.parse_id id_or_name) [
    | none ↦ get_instance_by_name b id_or_name
    | some id ↦ get_instance_by_id b id
  ]

  -- `ListInstances`.
  unfoldable pub list_instances : Action (Tables O) (List Instance)
  list_instances = list_instance_rows b

  -- The container of an instance, by its name where the row has no container.
  abbrev pub container_of : Instance → Text
  container_of i = if text_eq i.container_id [] then container_name b i.id else i.container_id

  -- The rest of `StopInstance` for an instance that is not stopped.
  unfoldable pub stop_found : Instance → Action (Tables O) Done
  stop_found i = do
    map_error (wrap internal) (outside (b.stop_instance (container_of i)))
    update_instance b (record i { status = InstanceStatus.stopped })
    note "instance.stop" i.user_id i.id

  -- An instance that is stopped is left alone.
  unfoldable pub stop_unless_stopped : Instance → Action (Tables O) Done
  stop_unless_stopped i = if is_stopped i.status then pure tt else stop_found i

  -- `StopInstance`.
  unfoldable pub stop_instance : Text → Action (Tables O) Done
  stop_instance id_or_name = do i ← get_instance id_or_name; stop_unless_stopped i

  -- The rest of `GetInstanceLogs` for an instance that was found.
  unfoldable pub logs_of : Instance → Action (Tables O) Text
  logs_of i = do
    raise_if (text_eq i.container_id []) (new instance_not_running)
    stream ← outside (b.open_logs i.container_id)
    map_error (wrap internal) (outside (b.read_all stream))

  -- `GetInstanceLogs`.
  unfoldable pub get_instance_logs : Text → Action (Tables O) Text
  get_instance_logs id_or_name = do i ← get_instance id_or_name; logs_of i

  -- `removeInstanceContainer`.
  unfoldable pub remove_container : Instance → Action (Tables O) Done
  remove_container i = map_error (wrap internal) (outside (b.delete_instance (container_of i)))

  -- The rest of `TerminateInstance` for an instance that was found: a failure to release the volumes
  -- is dropped.
  unfoldable pub terminate_found : Instance → Action (Tables O) Done
  terminate_found i = do
    remove_container i
    ignore (release_attached_volumes i.id)
    delete_instance_row b i.id
    note "INSTANCE_TERMINATE" i.user_id i.id
    note "instance.terminate" i.user_id i.id

  -- `TerminateInstance`.
  unfoldable pub terminate_instance : Text → Action (Tables O) Done
  terminate_instance id_or_name = do i ← get_instance id_or_name; terminate_found i
