-- ===== src/Infra/Tests.antt =====
-- One VPC with a subnet, an instance with a volume, and a load balancer.
use thecloud.Prelude.{
  any, map, ℕ, ◌+◌, true, false, none, some, [], ◌∷◌, ◌++◌, Text, text, find?, ◌==◌, ◌&&◌,
  any-append, ◌≡◌, refl, arith, ◌⊎◌, ◌∙◌,
}
use thecloud.Prelude.Int.{pos}
use thecloud.Action.{ok, is_ok, World, Env, pure, nil_id}
use thecloud.Net.Address.{carry, increment}
use thecloud.Net.Allocate.{calculate_gateway_ip}
use thecloud.Infra.Types.{
  Vpc, Subnet, Instance, InstanceStatus, Volume, VolumeStatus, Snapshot, SnapshotStatus,
  LoadBalancer, LbStatus, Tables, Backend,
}
use thecloud.Infra.Network.Repo.{delete_vpc_row, get_vpc_by_id}
use thecloud.Infra.Network.Service.{get_vpc, delete_vpc}
use thecloud.Infra.Network.Pinned.{delete_vpc-bridge}
use thecloud.Infra.Compute.Repo.{get_instance_by_id}
use thecloud.Infra.Compute.Launch.{new_instance, place_in_subnet, launch_instance}
use thecloud.Infra.Compute.Lifecycle.{
  get_instance, stop_instance, remove_container, terminate_instance,
}
use thecloud.Infra.Compute.Terminate.{detached, terminate_instance-releases}
use thecloud.Infra.Compute.Addresses.{has_byte, place_in_subnet-gateway}
use thecloud.Infra.Compute.Faults.{launch_instance-foreign_vpc}
use thecloud.Infra.Storage.Service.{create_volume, finish_snapshot, perform_snapshot}
use thecloud.Infra.Storage.Snapshots.{finish_snapshot-settles}
use thecloud.Infra.Balancer.Repo.{get_balancer_by_id, update_balancer, create_balancer_row}
use thecloud.Infra.Balancer.Service.{create_balancer, create_fresh, delete_balancer}
use thecloud.Infra.Balancer.Worker.{deploy_lb}
use thecloud.Infra.Balancer.Life.{tick, life}
use thecloud.Infra.Balancer.Refines.{delete_balancer-survives}
use thecloud.Infra.Balancer.Create.{is_keyless, create_balancer-keyless}
use thecloud.Ports.{parse_and_validate_ports}

-- Names are numbers of one byte, and every call of a backend succeeds.
abbrev engine : Backend ℕ
engine = record {
  parse_id = λ t. elim t [ [] ↦ none | c ∷ r ↦ some c ];
  short = λ id. id ∷ [];
  first_byte = λ id. id;
  parse_cidr = λ t. some (10 ∷ 0 ∷ 0 ∷ 0 ∷ [], record { ip = 10 ∷ 0 ∷ 0 ∷ 0 ∷ []; ones = 30 });
  is_cidr = λ t. true;
  inet_text = λ t. t ++ text "/32";
  has_network = true;
  create_instance = λ name image ports network binds. pure name;
  stop_instance = λ c. pure tt;
  delete_instance = λ c. pure tt;
  open_logs = λ c. pure 1;
  read_all = λ s. pure [];
  create_volume = λ n. pure tt;
  delete_volume = λ n. pure tt;
  create_volume_snapshot = λ n p. pure tt;
  restore_volume_snapshot = λ n p. pure tt;
  snapshot_path = λ id. id ∷ [];
  remove_file = λ p. pure tt;
  create_bridge = λ n v. pure tt;
  delete_bridge = λ n. pure tt;
  create_veth_pair = λ h c. pure tt;
  attach_veth_to_bridge = λ br v. pure tt;
  set_veth_ip = λ v ip ones. pure tt;
  link_up = λ v. pure tt;
  deploy_proxy = λ lb ts. pure tt;
  remove_proxy = λ id. pure tt;
  update_proxy_config = λ lb ts. pure tt;
  dial = λ a. pure tt;
  scan_word = λ t. t;
  scan_int = λ t. pos 80;
  map_order = λ m. m;
}

abbrev office : Vpc
office = record {
  id = 1;
  user_id = 7;
  name = text "office";
  cidr_block = text "10.0.0.0/16";
  network_id = text "br-vpc-1";
  vxlan_id = 101;
}

abbrev floor : Subnet
floor = record {
  id = 2;
  user_id = 7;
  vpc_id = 1;
  name = text "floor";
  cidr_block = text "10.0.0.0/30";
  availability_zone = [];
  gateway_ip = text "10.0.0.1";
}

abbrev web : Instance
web = record {
  id = 3;
  user_id = 7;
  name = text "web";
  image = text "nginx";
  container_id = text "c3";
  status = InstanceStatus.running;
  ports = [];
  vpc_id = some 1;
  subnet_id = some 2;
  private_ip = text "10.0.0.1";
  ovs_port = text "veth-3";
  version = 2;
}

abbrev disk : Volume
disk = record {
  id = 4;
  user_id = 7;
  name = text "disk";
  size_gb = pos 10;
  status = VolumeStatus.in_use;
  instance_id = some 3;
  mount_path = text "/data";
}

abbrev backup : Snapshot
backup = record {
  id = 5;
  user_id = 7;
  volume_id = 4;
  volume_name = text "disk";
  size_gb = pos 10;
  status = SnapshotStatus.complete;
  description = [];
}

abbrev front : LoadBalancer
front = record {
  id = 6;
  user_id = 7;
  idempotency_key = text "k";
  name = text "front";
  vpc_id = 1;
  port = pos 80;
  algorithm = text "round-robin";
  status = LbStatus.pending;
  version = 1;
}

abbrev start : World (Tables ℕ)
start = record {
  tables = record {
    vpcs = office ∷ [];
    subnets = floor ∷ [];
    instances = web ∷ [];
    volumes = disk ∷ [];
    snapshots = backup ∷ [];
    balancers = front ∷ [];
    targets = [];
    group_vpcs = [];
    outside = 0;
  };
  journal = [];
  tick = 0;
}

abbrev quiet : Env
quiet = record { fails = λ n. false; clock = λ n. 1000; fresh = λ n. 100 + n; user = 7 }

abbrev stranger : Env
stranger = record { fails = λ n. false; clock = λ n. 1000; fresh = λ n. 100 + n; user = 8 }

delete_balancer-survives_example :
    (let w' = (delete_balancer engine 6 quiet start).1 in
      (life 6 w'.tables ≡ some LbStatus.dropped)
      × (life 6 (deploy_lb engine front quiet w').1.tables ≡ some LbStatus.dropped))
unfolding delete_balancer get_balancer_by_id update_balancer
delete_balancer-survives_example =
    delete_balancer-survives engine quiet quiet start front (refl, tt) refl refl

abbrev bare : LoadBalancer
bare = record {
  id = 101;
  user_id = 7;
  idempotency_key = [];
  name = text "a";
  vpc_id = 1;
  port = pos 80;
  algorithm = text "round-robin";
  status = LbStatus.pending;
  version = 1;
}

create_balancer-keyless_example :
    (let w' = (create_balancer engine (text "a") 1 (pos 80) [] [] quiet start).1 in
      let o = create_balancer engine (text "b") 1 (pos 81) [] [] stranger w' in
      (any is_keyless w'.tables.balancers ≡ true)
      × (is_ok o.0 ≡ false)
      × (o.1.tables.balancers ≡ w'.tables.balancers))
unfolding create_balancer create_fresh get_vpc_by_id create_balancer_row
create_balancer-keyless_example =
    create_balancer-keyless engine quiet stranger start
      (create_balancer engine (text "a") 1 (pos 80) [] [] quiet start).1 (text "a") (text "b") [] []
      1 1 (pos 80) (pos 81) {lb = bare} refl refl

slashed : (t : Text) → has_byte b'/' (t ++ text "/32") ≡ true
slashed t = any-append (λ x. x == b'/') t (text "/32") ∙ ground arith

place_in_subnet-gateway_example :
    (place_in_subnet engine (some 2) quiet start).0
    ≡ ok (calculate_gateway_ip (10 ∷ 0 ∷ 0 ∷ 0 ∷ []), text "veth-" ++ 102 ∷ [])
unfolding increment carry
place_in_subnet-gateway_example =
    place_in_subnet-gateway engine quiet start 2 floor (10 ∷ 0 ∷ 0 ∷ 0 ∷ [])
      (record { ip = 10 ∷ 0 ∷ 0 ∷ 0 ∷ []; ones = 30 }) slashed refl refl refl refl refl refl refl

launch_instance-foreign_vpc_example :
    (let o = launch_instance engine (text "x") (text "nginx") [] (some 1) none [] stranger start in
      (is_ok o.0 ≡ false)
      × (o.1.tables.instances
          ≡ web ∷ new_instance engine 100 8 (text "x") (text "nginx") [] (some 1) none ∷ [])
      × ((owner : Env) → is_ok (delete_vpc_row engine 1 owner o.1).0 ≡ false))
unfolding parse_and_validate_ports
launch_instance-foreign_vpc_example =
    launch_instance-foreign_vpc engine stranger start 1 (text "x") (text "nginx") [] [] [] refl refl
      refl refl refl

delete_vpc-bridge_example :
    (is_ok (delete_vpc engine (1 ∷ []) quiet start).0 ≡ false)
    × ((delete_vpc engine (1 ∷ []) quiet start).1.tables ≡ start.tables)
unfolding get_vpc get_vpc_by_id
delete_vpc-bridge_example = delete_vpc-bridge engine quiet start (1 ∷ []) office refl refl refl

-- The instance as it is read.
abbrev web_read : Instance
web_read = record web { private_ip = text "10.0.0.1/32" }

terminate_instance-releases_example :
    ((terminate_instance engine (3 ∷ []) quiet start).0 ≡ ok tt)
    × ((terminate_instance engine (3 ∷ []) quiet start).1.tables ≡ record start.tables {
      instances = [];
      targets = [];
      volumes = map (detached 3 7) start.tables.volumes;
    })
unfolding get_instance get_instance_by_id remove_container
terminate_instance-releases_example =
    terminate_instance-releases engine quiet start (3 ∷ []) web_read (λ n. refl) (refl, tt) refl
      refl

finish_snapshot-settles_example :
    (x : Snapshot) × (find?
        (λ (s : Snapshot). s.id == 5 && s.user_id == 7)
        (finish_snapshot engine disk backup quiet start).1.tables.snapshots
      ≡ some x)
    × (((is_ok (perform_snapshot engine disk backup (record quiet { user = nil_id }) start).0
            ≡ true)
          × (x.status ≡ SnapshotStatus.complete))
        ⊎ ((is_ok (perform_snapshot engine disk backup (record quiet { user = nil_id }) start).0
              ≡ false)
            × (x.status ≡ SnapshotStatus.broken)))
unfolding perform_snapshot
finish_snapshot-settles_example =
    finish_snapshot-settles engine quiet start disk backup backup refl refl
