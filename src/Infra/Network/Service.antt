-- ===== src/Infra/Network/Service.antt =====
-- internal/core/services/vpc.go and subnet.go.
use thecloud.Prelude.{ℕ, ◌+◌, none, some, List, [], ◌++◌, Text, text, text_eq, not, if◌then◌else◌}
use thecloud.Errors.{new, wrap, plain, internal, invalid_input}
use thecloud.Action.{
  Action, Done, pure, raise, raise_if, ask, attempt, ignore, map_error, new_id, note, ok, err,
  ◌>>=◌, ◌>>◌,
}
use thecloud.Net.Address.{contains}
use thecloud.Net.Allocate.{calculate_gateway_ip}
use thecloud.Infra.Types.{Vpc, Subnet, Tables, Backend}
use thecloud.Infra.Network.Repo.{
  create_vpc_row, get_vpc_by_id, get_vpc_by_name, list_vpc_rows, delete_vpc_row, create_subnet_row,
  get_subnet_by_id, get_subnet_by_name, list_subnets_by_vpc, delete_subnet_row,
}
use thecloud.Infra.Compute.Launch.{outside}

module _ {O : Type 0} (b : Backend O) where
  -- `CreateVPC`, with the default block of the service. A bridge without a row is deleted again.
  unfoldable pub create_vpc : Text → Text → Text → Action (Tables O) Vpc
  create_vpc default_cidr name cidr = do
    user ← ask (λ e. e.user)
    id ← new_id
    let bridge = text "br-vpc-" ++ b.short id
    let vxlan = b.first_byte id + 100
    map_error (wrap internal) (outside (b.create_bridge bridge vxlan))
    let vpc : Vpc = record {
      id = id;
      user_id = user;
      name = name;
      cidr_block = if text_eq cidr [] then default_cidr else cidr;
      network_id = bridge;
      vxlan_id = vxlan;
    }
    stored ← attempt (create_vpc_row b vpc)
    elim stored [
      | err x ↦ do ignore (outside (b.delete_bridge bridge)); raise (wrap internal x)
      | ok d ↦ do note "vpc.create" user id; pure vpc
    ]

  -- `GetVPC`.
  unfoldable pub get_vpc : Text → Action (Tables O) Vpc
  get_vpc id_or_name = elim (b.parse_id id_or_name) [
    | none ↦ get_vpc_by_name b id_or_name
    | some id ↦ get_vpc_by_id b id
  ]

  -- `ListVPCs`.
  unfoldable pub list_vpcs : Action (Tables O) (List Vpc)
  list_vpcs = list_vpc_rows b

  -- The rest of `DeleteVPC` for a VPC that was found: the bridge goes before the row.
  unfoldable pub delete_found : Vpc → Action (Tables O) Done
  delete_found vpc = do
    map_error (wrap internal) (outside (b.delete_bridge vpc.network_id))
    map_error (wrap internal) (delete_vpc_row b vpc.id)
    note "vpc.delete" vpc.user_id vpc.id

  -- `DeleteVPC`.
  unfoldable pub delete_vpc : Text → Action (Tables O) Done
  delete_vpc id_or_name = do vpc ← get_vpc id_or_name; delete_found vpc

  -- The gateway of a new subnet, after the three tests on the blocks.
  abbrev pub gateway_in : Text → Text → Action (Tables O) Text
  gateway_in vpc_cidr cidr = elim (b.parse_cidr vpc_cidr) [
    | none ↦ raise (wrap internal plain)
    | some vpc_net ↦ elim (b.parse_cidr cidr) [
      | none ↦ raise (new invalid_input)
      | some subnet_net ↦ do
        raise_if (not (contains vpc_net.1 subnet_net.0)) (new invalid_input)
        pure (calculate_gateway_ip subnet_net.0)
    ]
  ]

  -- `CreateSubnet`.
  unfoldable pub create_subnet : ℕ → Text → Text → Text → Action (Tables O) Subnet
  create_subnet vpc_id name cidr zone = do
    user ← ask (λ e. e.user)
    vpc ← get_vpc_by_id b vpc_id
    gateway ← gateway_in vpc.cidr_block cidr
    id ← new_id
    let subnet : Subnet = record {
      id = id;
      user_id = user;
      vpc_id = vpc_id;
      name = name;
      cidr_block = cidr;
      availability_zone = zone;
      gateway_ip = gateway;
    }
    create_subnet_row b subnet
    note "subnet.create" user id
    pure subnet

  -- `GetSubnet`.
  unfoldable pub get_subnet : Text → ℕ → Action (Tables O) Subnet
  get_subnet id_or_name vpc = elim (b.parse_id id_or_name) [
    | none ↦ get_subnet_by_name b vpc id_or_name
    | some id ↦ get_subnet_by_id b id
  ]

  -- `ListSubnets`.
  unfoldable pub list_subnets : ℕ → Action (Tables O) (List Subnet)
  list_subnets vpc = list_subnets_by_vpc b vpc

  -- `DeleteSubnet`.
  unfoldable pub delete_subnet : ℕ → Action (Tables O) Done
  delete_subnet id = do
    subnet ← get_subnet_by_id b id
    delete_subnet_row b id
    note "subnet.delete" subnet.user_id id
