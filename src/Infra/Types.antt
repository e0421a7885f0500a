-- ===== src/Infra/Types.antt =====
-- internal/core/domain/{vpc,subnet,instance,volume,snapshot,loadbalancer}.go, the tables behind them,
-- and the backends that the services call. Timestamps and resource names (ARN) are left out.
use thecloud.Prelude.{ℕ, Bool, Option, List, Text}
use thecloud.Prelude.Int.{ℤ}
use thecloud.Errors.{Error, new, wrap, plain, internal}
use thecloud.Action.{Result, Action, Done, call, map_error}
use thecloud.Net.Address.{Address, IpNet}

pub record Vpc : Type 0 where
  pub id : ℕ
  pub user_id : ℕ
  pub name : Text
  pub cidr_block : Text
  pub network_id : Text
  pub vxlan_id : ℕ

pub record Subnet : Type 0 where
  pub id : ℕ
  pub user_id : ℕ
  pub vpc_id : ℕ
  pub name : Text
  pub cidr_block : Text
  pub availability_zone : Text
  pub gateway_ip : Text

pub data InstanceStatus : Type 0 where
  starting running stopped faulty deleted : InstanceStatus

pub record Instance : Type 0 where
  pub id : ℕ
  pub user_id : ℕ
  pub name : Text
  pub image : Text
  pub container_id : Text
  pub status : InstanceStatus
  pub ports : Text
  pub vpc_id : Option ℕ
  pub subnet_id : Option ℕ
  pub private_ip : Text
  pub ovs_port : Text
  pub version : ℕ

pub data VolumeStatus : Type 0 where
  available in_use deleting : VolumeStatus

pub record Volume : Type 0 where
  pub id : ℕ
  pub user_id : ℕ
  pub name : Text
  pub size_gb : ℤ
  pub status : VolumeStatus
  pub instance_id : Option ℕ
  pub mount_path : Text

pub record VolumeAttachment : Type 0 where
  pub volume_id_or_name : Text
  pub mount_path : Text

pub data SnapshotStatus : Type 0 where
  creating complete removing broken : SnapshotStatus

pub record Snapshot : Type 0 where
  pub id : ℕ
  pub user_id : ℕ
  pub volume_id : ℕ
  pub volume_name : Text
  pub size_gb : ℤ
  pub status : SnapshotStatus
  pub description : Text

pub data LbStatus : Type 0 where
  pending active draining dropped : LbStatus

pub record LoadBalancer : Type 0 where
  pub id : ℕ
  pub user_id : ℕ
  pub idempotency_key : Text
  pub name : Text
  pub vpc_id : ℕ
  pub port : ℤ
  pub algorithm : Text
  pub status : LbStatus
  pub version : ℕ

pub data Health : Type 0 where
  unknown healthy unhealthy : Health

pub record LbTarget : Type 0 where
  pub id : ℕ
  pub lb_id : ℕ
  pub instance_id : ℕ
  pub port : ℤ
  pub weight : ℤ
  pub health : Health

-- `group_vpcs` is the column `vpc_id` of `scaling_groups`, which pins a VPC.
pub record Tables (O : Type 0) : Type 0 where
  pub vpcs : List Vpc
  pub subnets : List Subnet
  pub instances : List Instance
  pub volumes : List Volume
  pub snapshots : List Snapshot
  pub balancers : List LoadBalancer
  pub targets : List LbTarget
  pub group_vpcs : List ℕ
  pub outside : O

-- What the services use of other code: `uuid.Parse`, the first eight characters and the first byte
-- of an identifier, `net.ParseCIDR`, the database's cast to `cidr` and its text of an `inet`, the
-- compute backend, the network backend (which may be missing), the proxies, the file system, TCP,
-- `fmt.Sscanf` with `%s` and `%d`, and the order in which Go walks a map.
pub record Backend (O : Type 0) : Type 0 where
  pub parse_id : Text → Option ℕ
  pub short : ℕ → Text
  pub first_byte : ℕ → ℕ
  pub parse_cidr : Text → Option (Address × IpNet)
  pub is_cidr : Text → Bool
  pub inet_text : Text → Text
  pub has_network : Bool
  pub create_instance : Text → Text → List Text → Text → List Text → Action O Text
  pub stop_instance : Text → Action O Done
  pub delete_instance : Text → Action O Done
  pub open_logs : Text → Action O ℕ
  pub read_all : ℕ → Action O Text
  pub create_volume : Text → Action O Done
  pub delete_volume : Text → Action O Done
  pub create_volume_snapshot : Text → Text → Action O Done
  pub restore_volume_snapshot : Text → Text → Action O Done
  pub snapshot_path : ℕ → Text
  pub remove_file : Text → Action O Done
  pub create_bridge : Text → ℕ → Action O Done
  pub delete_bridge : Text → Action O Done
  pub create_veth_pair : Text → Text → Action O Done
  pub attach_veth_to_bridge : Text → Text → Action O Done
  pub set_veth_ip : Text → Text → Text → Action O Done
  pub link_up : Text → Action O Done
  pub deploy_proxy : LoadBalancer → List LbTarget → Action O Done
  pub remove_proxy : ℕ → Action O Done
  pub update_proxy_config : LoadBalancer → List LbTarget → Action O Done
  pub dial : Text → Action O Done
  pub scan_word : Text → Text
  pub scan_int : Text → ℤ
  pub map_order : List (Text × ℤ) → List (Text × ℤ)

-- `errors.Wrap(errors.Internal, …)` round an error of the driver. The errors that a query makes
-- itself stay.
abbrev pub from_driver : Error → Error
from_driver plain = wrap internal plain
from_driver (new t) = new t
from_driver (wrap t x) = wrap t x

abbrev pub query : {O A : Type 0} → (Tables O → Result A × Tables O) → Action (Tables O) A
query f = map_error from_driver (call f)
