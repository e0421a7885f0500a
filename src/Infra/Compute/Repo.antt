-- ===== src/Infra/Compute/Repo.antt =====
-- internal/repositories/postgres/instance_repo.go, with the constraints of migrations 001, 006, 008,
-- 010 and 032.
use thecloud.Prelude.{
  ℕ, suc, Bool, true, Option, none, some, List, [], ◌∷◌, ◌++◌, map, Text, text_eq, keep, find?, any,
  modify, ◌==◌, ◌&&◌, ◌||◌, not, if◌then◌else◌,
}
use thecloud.Errors.{new, plain, not_found, conflict}
use thecloud.Action.{Result, ok, err, Action, Done}
use thecloud.Infra.Types.{Vpc, Subnet, Instance, Volume, LbTarget, Tables, Backend, query}
use thecloud.Infra.Network.Repo.{shown_ip, refers_to}

abbrev pub is_some_row : {A : Type 0} → (ℕ → A → Bool) → List A → Option ℕ → Bool
is_some_row p rows none = true
is_some_row p rows (some id) = any (p id) rows

-- The foreign keys of an instance: any user's VPC and subnet will do.
abbrev pub has_network_rows : {O : Type 0} → Instance → Tables O → Bool
has_network_rows i t =
    is_some_row (λ id (v : Vpc). v.id == id) t.vpcs i.vpc_id
    && is_some_row (λ id (s : Subnet). s.id == id) t.subnets i.subnet_id

abbrev pub is_owned : ℕ → ℕ → Instance → Bool
is_owned id user i = i.id == id && i.user_id == user

-- The rows that `Update` changes, and the columns that it sets.
abbrev pub is_instance_version : Instance → Instance → Bool
is_instance_version i row = row.id == i.id && row.version == i.version && row.user_id == i.user_id

abbrev pub set_instance_columns : Instance → Instance → Instance
set_instance_columns i row = record row {
  name = i.name;
  status = i.status;
  version = suc row.version;
  container_id = i.container_id;
  ports = i.ports;
  vpc_id = i.vpc_id;
  subnet_id = i.subnet_id;
  private_ip = i.private_ip;
  ovs_port = i.ovs_port;
}

-- `ON DELETE SET NULL`: the status of the volume stays.
abbrev pub loosen : ℕ → Volume → Volume
loosen id v = record v { instance_id = if refers_to v.instance_id id then none else v.instance_id }

-- An instance's row goes, with the cascades to volumes and targets.
abbrev pub without_instance : {O : Type 0} → ℕ → ℕ → Tables O → Tables O
without_instance id user t = record t {
  instances = keep (λ i. not (is_owned id user i)) t.instances;
  volumes = map (loosen id) t.volumes;
  targets = keep (λ (x : LbTarget). not (x.instance_id == id)) t.targets;
}

module _ {O : Type 0} (b : Backend O) where
  -- What is read of an instance.
  abbrev pub scanned_instance : Instance → Instance
  scanned_instance i = record i { private_ip = shown_ip b i.private_ip }

  abbrev pub instance_or_missing : Option Instance → Result Instance
  instance_or_missing none = err (new not_found)
  instance_or_missing (some i) = ok (scanned_instance i)

  -- `Create`.
  unfoldable pub create_instance_row : Instance → Action (Tables O) Done
  create_instance_row i = query λ t.
      if any (λ (x : Instance). x.id == i.id) t.instances || not (has_network_rows i t)
      then (err plain, t)
      else (ok tt, record t { instances = t.instances ++ i ∷ [] })

  -- `GetByID`.
  unfoldable pub get_instance_by_id : ℕ → Action (Tables O) Instance
  get_instance_by_id id e w =
      query (λ t. (instance_or_missing (find? (is_owned id e.user) t.instances), t)) e w

  -- `GetByName`.
  unfoldable pub get_instance_by_name : Text → Action (Tables O) Instance
  get_instance_by_name name e w =
      query
        (λ t. (
          instance_or_missing
              (find? (λ (i : Instance). text_eq i.name name && i.user_id == e.user) t.instances),
          t,
        ))
        e w

  -- `List`.
  unfoldable pub list_instance_rows : Action (Tables O) (List Instance)
  list_instance_rows e w =
      query
        (λ t.
          (ok (map scanned_instance (keep (λ (i : Instance). i.user_id == e.user) t.instances)), t))
        e w

  -- `Update`: optimistic locking. The instance comes back with its new version.
  unfoldable pub update_instance : Instance → Action (Tables O) Instance
  update_instance i = query λ t.
      if any (is_instance_version i) t.instances
      then (if has_network_rows i t
          then (
            ok (record i { version = suc i.version }),
            record t {
              instances = modify (is_instance_version i) (set_instance_columns i) t.instances;
            },
          )
          else (err plain, t))
      else (err (new conflict), t)

  -- `ListBySubnet`.
  unfoldable pub list_by_subnet : ℕ → Action (Tables O) (List Instance)
  list_by_subnet subnet e w =
      query
        (λ t. (
          ok (
              map scanned_instance (
                keep (λ (i : Instance). refers_to i.subnet_id subnet && i.user_id == e.user)
                  t.instances)),
          t,
        ))
        e w

  -- `Delete`.
  unfoldable pub delete_instance_row : ℕ → Action (Tables O) Done
  delete_instance_row id e w =
      query
        (λ t.
          if any (is_owned id e.user) t.instances
          then (ok tt, without_instance id e.user t)
          else (err (new not_found), t))
        e w
