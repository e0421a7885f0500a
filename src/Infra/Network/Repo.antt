-- ===== src/Infra/Network/Repo.antt =====
-- internal/repositories/postgres/vpc_repo.go and subnet_repo.go, with the constraints of migrations
-- 006, 010, 011, 029, 031 and 032.
use thecloud.Prelude.{
  ℕ, Bool, false, Option, none, some, List, [], ◌∷◌, ◌++◌, map, Text, text_eq, keep, find?, any,
  ◌==◌, ◌&&◌, ◌||◌, not, if◌then◌else◌,
}
use thecloud.Errors.{new, plain, not_found}
use thecloud.Action.{Result, ok, err, Action, Done}
use thecloud.Infra.Types.{Vpc, Subnet, Instance, LoadBalancer, Tables, Backend, query}

-- A row, or the error for a missing one.
abbrev pub row_or_missing : {A : Type 0} → Option A → Result A
row_or_missing none = err (new not_found)
row_or_missing (some a) = ok a

abbrev pub refers_to : Option ℕ → ℕ → Bool
refers_to none id = false
refers_to (some x) id = x == id

-- Is the subnet one of the VPC's?
abbrev pub lies_in : {O : Type 0} → Tables O → ℕ → Option ℕ → Bool
lies_in t vpc none = false
lies_in t vpc (some s) = any (λ (x : Subnet). x.id == s && x.vpc_id == vpc) t.subnets

-- The rows that keep a VPC from being deleted: no cascade reaches them.
abbrev pub pins_vpc : {O : Type 0} → ℕ → Tables O → Bool
pins_vpc id t =
    any (λ (i : Instance). refers_to i.vpc_id id || lies_in t id i.subnet_id) t.instances
    || any (λ (b : LoadBalancer). b.vpc_id == id) t.balancers
    || any (λ (v : ℕ). v == id) t.group_vpcs

-- `COALESCE(gateway_ip::text, '')`.
abbrev pub shown_ip : {O : Type 0} → Backend O → Text → Text
shown_ip b [] = []
shown_ip b (x ∷ a) = b.inet_text (x ∷ a)

module _ {O : Type 0} (b : Backend O) where
  -- `VpcRepository.Create`: names are unique among all users.
  unfoldable pub create_vpc_row : Vpc → Action (Tables O) Done
  create_vpc_row v = query λ t.
      if any (λ (x : Vpc). x.id == v.id || text_eq x.name v.name) t.vpcs
        || not (text_eq v.cidr_block []) && not (b.is_cidr v.cidr_block)
      then (err plain, t)
      else (ok tt, record t { vpcs = t.vpcs ++ v ∷ [] })

  -- `VpcRepository.GetByID`.
  unfoldable pub get_vpc_by_id : ℕ → Action (Tables O) Vpc
  get_vpc_by_id id e w =
      query
        (λ t. (row_or_missing (find? (λ (v : Vpc). v.id == id && v.user_id == e.user) t.vpcs), t)) e
        w

  -- `VpcRepository.GetByName`.
  unfoldable pub get_vpc_by_name : Text → Action (Tables O) Vpc
  get_vpc_by_name name e w =
      query
        (λ t. (
          row_or_missing (find? (λ (v : Vpc). text_eq v.name name && v.user_id == e.user) t.vpcs),
          t,
        ))
        e w

  -- `VpcRepository.List`.
  unfoldable pub list_vpc_rows : Action (Tables O) (List Vpc)
  list_vpc_rows e w = query (λ t. (ok (keep (λ (v : Vpc). v.user_id == e.user) t.vpcs), t)) e w

  -- `VpcRepository.Delete`, with the cascade to the subnets.
  unfoldable pub delete_vpc_row : ℕ → Action (Tables O) Done
  delete_vpc_row id e w =
      query
        (λ t.
          if any (λ (v : Vpc). v.id == id && v.user_id == e.user) t.vpcs
          then (if pins_vpc id t then (err plain, t) else (
            ok tt,
            record t {
              vpcs = keep (λ (v : Vpc). not (v.id == id && v.user_id == e.user)) t.vpcs;
              subnets = keep (λ (s : Subnet). not (s.vpc_id == id)) t.subnets;
            },
          ))
          else (err (new not_found), t))
        e w

  -- What is read of a subnet.
  abbrev pub scanned_subnet : Subnet → Subnet
  scanned_subnet s = record s { gateway_ip = shown_ip b s.gateway_ip }

  abbrev pub subnet_or_missing : Option Subnet → Result Subnet
  subnet_or_missing none = err (new not_found)
  subnet_or_missing (some s) = ok (scanned_subnet s)

  -- `SubnetRepository.Create`.
  unfoldable pub create_subnet_row : Subnet → Action (Tables O) Done
  create_subnet_row s = query λ t.
      if any
          (λ (x : Subnet).
            x.id == s.id
            || (x.vpc_id == s.vpc_id
                && (text_eq x.name s.name || text_eq x.cidr_block s.cidr_block)))
          t.subnets
        || not (any (λ (v : Vpc). v.id == s.vpc_id) t.vpcs)
        || not (b.is_cidr s.cidr_block)
      then (err plain, t)
      else (ok tt, record t { subnets = t.subnets ++ s ∷ [] })

  -- `SubnetRepository.GetByID`.
  unfoldable pub get_subnet_by_id : ℕ → Action (Tables O) Subnet
  get_subnet_by_id id e w =
      query
        (λ t. (
          subnet_or_missing (find? (λ (s : Subnet). s.id == id && s.user_id == e.user) t.subnets),
          t,
        ))
        e w

  -- `SubnetRepository.GetByName`.
  unfoldable pub get_subnet_by_name : ℕ → Text → Action (Tables O) Subnet
  get_subnet_by_name vpc name e w =
      query
        (λ t. (
          subnet_or_missing (
              find? (λ (s : Subnet). s.vpc_id == vpc && text_eq s.name name && s.user_id == e.user)
                t.subnets),
          t,
        ))
        e w

  -- `SubnetRepository.ListByVPC`.
  unfoldable pub list_subnets_by_vpc : ℕ → Action (Tables O) (List Subnet)
  list_subnets_by_vpc vpc e w =
      query
        (λ t. (
          ok (
              map scanned_subnet
                (keep (λ (s : Subnet). s.vpc_id == vpc && s.user_id == e.user) t.subnets)),
          t,
        ))
        e w

  -- `SubnetRepository.Delete`: an instance in the subnet keeps it.
  unfoldable pub delete_subnet_row : ℕ → Action (Tables O) Done
  delete_subnet_row id e w =
      query
        (λ t.
          if any (λ (s : Subnet). s.id == id && s.user_id == e.user) t.subnets
          then (if any (λ (i : Instance). refers_to i.subnet_id id) t.instances
              then (err plain, t)
              else (
                ok tt,
                record t {
                  subnets =
                      keep (λ (s : Subnet). not (s.id == id && s.user_id == e.user)) t.subnets;
                },
              ))
          else (err (new not_found), t))
        e w
