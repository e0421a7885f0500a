-- ===== src/Infra/Compute/Launch.antt =====
-- `LaunchInstance` of internal/core/services/instance.go. A nil pointer is a value of its own.
use thecloud.Prelude.{
  ℕ, Bool, true, false, Option, none, some, List, [], ◌∷◌, ◌++◌, map, Text, text, text_eq, ◌||◌,
  not, if◌then◌else◌,
}
use thecloud.Errors.{
  Error, new, wrap, plain, not_found, internal, invalid_input, resource_limit_exceeded,
}
use thecloud.Action.{
  Outcome, returned, panicked, is_panic, Result, ok, err, World, Action, Done, pure, raise, ask,
  attempt, ignore, map_error, new_id, note, raise_if, ◌>>=◌, ◌>>◌,
}
use thecloud.Ports.{parse_and_validate_ports}
use thecloud.Net.Address.{size, show_byte}
use thecloud.Net.Allocate.{allocate_ip}
use thecloud.Infra.Types.{
  Subnet, Instance, InstanceStatus, Volume, VolumeStatus, VolumeAttachment, Tables, Backend,
}
use thecloud.Infra.Network.Repo.{get_vpc_by_id, get_subnet_by_id}
use thecloud.Infra.Compute.Repo.{create_instance_row, update_instance, list_by_subnet}
use thecloud.Infra.Storage.Repo.{get_volume_by_id, get_volume_by_name, update_volume}

abbrev inside : {O A : Type 0} → World (Tables O) → Result A × World O → Result A × World (Tables O)
inside w (r, w') = (
  r,
  record { tables = record w.tables { outside = w'.tables }; journal = w'.journal; tick = w'.tick },
)

-- What an action of a backend does to the whole.
abbrev pub outside : {O A : Type 0} → Action O A → Action (Tables O) A
outside m e w =
    inside w (m e (record { tables = w.tables.outside; journal = w.journal; tick = w.tick }))

abbrev pub is_available : VolumeStatus → Bool
is_available VolumeStatus.available = true
is_available VolumeStatus.in_use = false
is_available VolumeStatus.deleting = false

-- The fuel is the size of the network, which is enough: `Net.Search.find_available_ip-first`.
abbrev pub address_or_error : Option (Option Text) → Result Text
address_or_error none = err plain
address_or_error (some none) = err plain
address_or_error (some (some ip)) = ok ip

abbrev pub of_result : {S A : Type 0} → Result A → Action S A
of_result r e w = (r, w)

module _ {O : Type 0} (b : Backend O) where
  -- `formatContainerName`, and the name of a volume in the backend.
  abbrev pub container_name : ℕ → Text
  container_name id = text "thecloud-" ++ b.short id

  abbrev pub docker_volume : ℕ → Text
  docker_volume id = text "thecloud-vol-" ++ b.short id

  -- `allocateIP`.
  unfoldable pub allocate_subnet_ip : Subnet → Action (Tables O) Text
  allocate_subnet_ip subnet = elim (b.parse_cidr subnet.cidr_block) [
    | none ↦ raise plain
    | some parsed ↦ do
      instances ← list_by_subnet b subnet.id
      let private = map (λ (i : Instance). i.private_ip) instances
      of_result (address_or_error (allocate_ip (size parsed.1) parsed.1 private subnet.gateway_ip))
  ]

  -- The VPC's network in `resolveNetworkConfig`.
  unfoldable pub network_of : Option ℕ → Action (Tables O) Text
  network_of none = pure []
  network_of (some vpc) = do v ← get_vpc_by_id b vpc; pure v.network_id

  -- The address and the port in `resolveNetworkConfig`.
  unfoldable pub place_in_subnet : Option ℕ → Action (Tables O) (Text × Text)
  place_in_subnet none = pure ([], [])
  place_in_subnet (some id) = if not b.has_network then pure ([], []) else (do
    subnet ← map_error (wrap not_found) (get_subnet_by_id b id)
    ip ← map_error (wrap resource_limit_exceeded) (allocate_subnet_ip subnet)
    port ← new_id
    pure (ip, text "veth-" ++ b.short port))

  -- `resolveNetworkConfig`: network, address and port.
  unfoldable pub resolve_network_config :
      Option ℕ → Option ℕ → Action (Tables O) (Text × Text × Text)
  resolve_network_config vpc subnet = do
    network ← network_of vpc
    place ← place_in_subnet subnet
    pure (network, place.0, place.1)

  -- `getVolumeByIDOrName`.
  unfoldable pub find_volume : Text → Action (Tables O) Volume
  find_volume id_or_name = elim (b.parse_id id_or_name) [
    | none ↦ get_volume_by_name id_or_name
    | some id ↦ get_volume_by_id id
  ]

  -- `resolveVolumes`: the binds and the volumes, in order.
  unfoldable pub resolve_volumes :
      List VolumeAttachment → Action (Tables O) (List Text × List Volume)
  resolve_volumes [] = pure ([], [])
  resolve_volumes (a ∷ rest) = do
    v ← map_error (wrap not_found) (find_volume a.volume_id_or_name)
    raise_if (not (is_available v.status)) (new invalid_input)
    others ← resolve_volumes rest
    pure ((docker_volume v.id ++ text ":" ++ a.mount_path) ∷ others.0, v ∷ others.1)

  -- The end of `plumbNetwork`, where the instance has a subnet.
  unfoldable pub address_veth : Instance → Text → Action (Tables O) (Outcome Done)
  address_veth i veth = elim i.subnet_id [
    | none ↦ pure (returned tt)
    | some id ↦ do
      found ← attempt (get_subnet_by_id b id)
      elim found [
        | err x ↦ pure (returned tt)
        | ok subnet ↦ elim (b.parse_cidr subnet.cidr_block) [
          | none ↦ pure panicked
          | some parsed ↦ do
            outside (b.set_veth_ip veth i.private_ip (show_byte parsed.1.ones))
            ignore (outside (b.link_up veth))
            pure (returned tt)
        ]
      ]
  ]

  -- `plumbNetwork`: the VPC of the instance and what the query for it returns are not tested.
  unfoldable pub plumb_network : Instance → Action (Tables O) (Outcome Done)
  plumb_network i = if text_eq i.ovs_port [] || not b.has_network then pure (returned tt) else (do
    let veth = text "eth0-" ++ b.short i.id
    outside (b.create_veth_pair i.ovs_port veth)
    elim i.vpc_id [
      | none ↦ pure panicked
      | some id ↦ do
        found ← attempt (get_vpc_by_id b id)
        elim found [
          | err x ↦ pure panicked
          | ok vpc ↦ do
            outside (b.attach_veth_to_bridge vpc.network_id i.ovs_port)
            address_veth i veth
        ]
    ])

  -- `updateVolumesAfterLaunch`: the mount path is not written.
  unfoldable pub attach_volumes : List Volume → ℕ → Action (Tables O) Done
  attach_volumes [] inst = pure tt
  attach_volumes (v ∷ vs) inst = do
    ignore (update_volume (record v { status = VolumeStatus.in_use; instance_id = some inst }))
    attach_volumes vs inst

  -- The instance that `LaunchInstance` creates.
  abbrev pub new_instance : ℕ → ℕ → Text → Text → Text → Option ℕ → Option ℕ → Instance
  new_instance id user name image ports vpc subnet = record {
    id = id;
    user_id = user;
    name = name;
    image = image;
    container_id = [];
    status = InstanceStatus.starting;
    ports = ports;
    vpc_id = vpc;
    subnet_id = subnet;
    private_ip = [];
    ovs_port = [];
    version = 1;
  }

  -- What follows when the backend refuses to create the container.
  unfoldable pub launch_failed : Instance → Error → Action (Tables O) (Outcome Instance)
  launch_failed i x = do
    ignore (update_instance b (record i { status = InstanceStatus.faulty }))
    note "INSTANCE_LAUNCH_FAILED" i.user_id i.id
    raise (wrap internal x)

  -- What follows when the container runs. An error of `plumbNetwork` is dropped.
  unfoldable pub launched : Instance → Text → List Volume → Action (Tables O) (Outcome Instance)
  launched i container volumes = do
    plumbed ← attempt (plumb_network i)
    if is_panic plumbed then pure panicked else (do
      i' ←
          update_instance b (record i { status = InstanceStatus.running; container_id = container })
      note "INSTANCE_LAUNCH" i.user_id i.id
      note "instance.launch" i.user_id i.id
      attach_volumes volumes i.id
      pure (returned i'))

  -- The steps after `resolveNetworkConfig`.
  unfoldable pub start_placed :
      Instance
      → List Text
      → List VolumeAttachment
      → Text × Text × Text
      → Action (Tables O) (Outcome Instance)
  start_placed i port_list attachments config = do
    volumes ← resolve_volumes attachments
    let placed : Instance = record i { private_ip = config.1; ovs_port = config.2 }
    created ←
        attempt
          (outside (b.create_instance (container_name i.id) i.image port_list config.0 volumes.0))
    elim created [
      | err x ↦ launch_failed placed x
      | ok container ↦ launched placed container volumes.1
    ]

  -- The steps after the row was written.
  unfoldable pub start_instance :
      Instance → List Text → List VolumeAttachment → Action (Tables O) (Outcome Instance)
  start_instance i port_list attachments = do
    config ← resolve_network_config i.vpc_id i.subnet_id
    start_placed i port_list attachments config

  -- `LaunchInstance`.
  unfoldable pub launch_instance :
      Text
      → Text
      → Text
      → Option ℕ
      → Option ℕ
      → List VolumeAttachment
      → Action (Tables O) (Outcome Instance)
  launch_instance name image ports vpc subnet attachments = do
    port_list ← of_result (parse_and_validate_ports ports)
    id ← new_id
    user ← ask (λ e. e.user)
    let i = new_instance id user name image ports vpc subnet
    create_instance_row b i
    start_instance i port_list attachments
