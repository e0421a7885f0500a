-- ===== src/Infra/Balancer/Repo.antt =====
-- internal/repositories/postgres/lb_repo.go, with the constraints of migrations 010 and 014.
use thecloud.Prelude.{
  ℕ, suc, Bool, Option, none, some, List, [], ◌∷◌, ◌++◌, Text, text_eq, keep, find?, any, modify,
  ◌==◌, ◌&&◌, ◌||◌, not, if◌then◌else◌,
}
use thecloud.Errors.{new, plain, not_found, conflict, lb_not_found}
use thecloud.Action.{Result, ok, err, Action, Done, raise}
use thecloud.Infra.Types.{Vpc, Instance, LoadBalancer, LbTarget, Health, Tables, query}
use thecloud.Infra.Network.Repo.{row_or_missing}

abbrev pub balancer_or_missing : Option LoadBalancer → Result LoadBalancer
balancer_or_missing none = err (new lb_not_found)
balancer_or_missing (some b) = ok b

abbrev pub is_balancer : ℕ → ℕ → LoadBalancer → Bool
is_balancer id user b = b.id == id && b.user_id == user

-- The rows that `Update` changes, and the columns that it sets.
abbrev pub is_balancer_version : LoadBalancer → LoadBalancer → Bool
is_balancer_version b row = row.id == b.id && row.version == b.version && row.user_id == b.user_id

abbrev pub set_balancer_columns : LoadBalancer → LoadBalancer → LoadBalancer
set_balancer_columns b row = record row {
  name = b.name;
  port = b.port;
  algorithm = b.algorithm;
  status = b.status;
  version = suc row.version;
}

abbrev pub is_target : ℕ → ℕ → LbTarget → Bool
is_target lb inst x = x.lb_id == lb && x.instance_id == inst

-- What the constraints of `load_balancers` refuse: the key is unique among all users, and it is
-- written as it is, the empty one too.
abbrev pub refuses_balancer : {O : Type 0} → LoadBalancer → Tables O → Bool
refuses_balancer b t =
    any (λ (x : LoadBalancer). x.id == b.id || text_eq x.idempotency_key b.idempotency_key)
      t.balancers
    || not (any (λ (v : Vpc). v.id == b.vpc_id) t.vpcs)

-- What the constraints of `lb_targets` refuse.
abbrev pub refuses_target : {O : Type 0} → LbTarget → Tables O → Bool
refuses_target x t =
    any (λ (y : LbTarget). y.id == x.id || is_target x.lb_id x.instance_id y) t.targets
    || not (any (λ (b : LoadBalancer). b.id == x.lb_id) t.balancers)
    || not (any (λ (i : Instance). i.id == x.instance_id) t.instances)

-- A load balancer's row goes, with the cascade to its targets.
abbrev pub without_balancer : {O : Type 0} → ℕ → ℕ → Tables O → Tables O
without_balancer id user t = record t {
  balancers = keep (λ b. not (is_balancer id user b)) t.balancers;
  targets = keep (λ (x : LbTarget). not (x.lb_id == id)) t.targets;
}

module _ {O : Type 0} where
  -- `Create`.
  unfoldable pub create_balancer_row : LoadBalancer → Action (Tables O) Done
  create_balancer_row b = query λ t.
      if refuses_balancer b t
      then (err plain, t)
      else (ok tt, record t { balancers = t.balancers ++ b ∷ [] })

  -- `GetByID`.
  unfoldable pub get_balancer_by_id : ℕ → Action (Tables O) LoadBalancer
  get_balancer_by_id id e w =
      query (λ t. (balancer_or_missing (find? (is_balancer id e.user) t.balancers), t)) e w

  -- `GetByIdempotencyKey`, for a key that is not empty.
  unfoldable pub get_balancer_by_key : Text → Action (Tables O) LoadBalancer
  get_balancer_by_key [] e w = raise (new not_found) e w
  get_balancer_by_key (x ∷ key) e w =
      query
        (λ t. (
          row_or_missing (
              find?
                (λ (b : LoadBalancer). text_eq b.idempotency_key (x ∷ key) && b.user_id == e.user)
                t.balancers),
          t,
        ))
        e w

  -- `List`.
  unfoldable pub list_balancer_rows : Action (Tables O) (List LoadBalancer)
  list_balancer_rows e w =
      query (λ t. (ok (keep (λ (b : LoadBalancer). b.user_id == e.user) t.balancers), t)) e w

  -- `ListAll`.
  unfoldable pub list_all_balancers : Action (Tables O) (List LoadBalancer)
  list_all_balancers = query λ t. (ok t.balancers, t)

  -- `Update`: optimistic locking. The load balancer comes back with its new version.
  unfoldable pub update_balancer : LoadBalancer → Action (Tables O) LoadBalancer
  update_balancer b = query λ t.
      if any (is_balancer_version b) t.balancers
      then (
        ok (record b { version = suc b.version }),
        record t {
          balancers = modify (is_balancer_version b) (set_balancer_columns b) t.balancers;
        },
      )
      else (err (new conflict), t)

  -- `Delete`.
  unfoldable pub delete_balancer_row : ℕ → Action (Tables O) Done
  delete_balancer_row id e w =
      query
        (λ t.
          if any (is_balancer id e.user) t.balancers
          then (ok tt, without_balancer id e.user t)
          else (err (new lb_not_found), t))
        e w

  -- `AddTarget`.
  unfoldable pub add_target_row : LbTarget → Action (Tables O) Done
  add_target_row x = query λ t.
      if refuses_target x t
      then (err plain, t)
      else (ok tt, record t { targets = t.targets ++ x ∷ [] })

  -- `RemoveTarget`.
  unfoldable pub remove_target_row : ℕ → ℕ → Action (Tables O) Done
  remove_target_row lb inst = query λ t.
      if any (is_target lb inst) t.targets
      then (ok tt, record t { targets = keep (λ x. not (is_target lb inst x)) t.targets })
      else (err (new not_found), t)

  -- `ListTargets`.
  unfoldable pub list_target_rows : ℕ → Action (Tables O) (List LbTarget)
  list_target_rows lb = query λ t. (ok (keep (λ (x : LbTarget). x.lb_id == lb) t.targets), t)

  -- `UpdateTargetHealth`.
  unfoldable pub update_target_health : ℕ → ℕ → Health → Action (Tables O) Done
  update_target_health lb inst found = query λ t. (
    ok tt,
    record t {
      targets =
          modify (is_target lb inst) (λ (x : LbTarget). record x { health = found }) t.targets;
    },
  )

  -- `GetTargetsForInstance`.
  unfoldable pub get_targets_for_instance : ℕ → Action (Tables O) (List LbTarget)
  get_targets_for_instance inst =
      query λ t. (ok (keep (λ (x : LbTarget). x.instance_id == inst) t.targets), t)
