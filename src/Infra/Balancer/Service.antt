-- ===== src/Infra/Balancer/Service.antt =====
-- internal/core/services/loadbalancer.go.
use thecloud.Prelude.{ℕ, List, [], ◌∷◌, Text, text, text_eq, not, if◌then◌else◌}
use thecloud.Prelude.Int.{ℤ, pos, eq_ℤ}
use thecloud.Errors.{new, wrap, not_found, lb_cross_vpc}
use thecloud.Action.{
  ok, err, Action, Done, pure, raise_if, ask, attempt, map_error, new_id, note, ◌>>=◌, ◌>>◌,
}
use thecloud.Infra.Types.{LoadBalancer, LbStatus, LbTarget, Health, Tables, Backend}
use thecloud.Infra.Network.Repo.{get_vpc_by_id, refers_to}
use thecloud.Infra.Compute.Repo.{get_instance_by_id}
use thecloud.Infra.Balancer.Repo.{
  create_balancer_row, get_balancer_by_id, get_balancer_by_key, list_balancer_rows, update_balancer,
  add_target_row, remove_target_row, list_target_rows,
}

-- The load balancer that `Create` makes.
abbrev pub new_balancer : ℕ → ℕ → Text → Text → ℕ → ℤ → Text → LoadBalancer
new_balancer id user key name vpc port algorithm = record {
  id = id;
  user_id = user;
  idempotency_key = key;
  name = name;
  vpc_id = vpc;
  port = port;
  algorithm = if text_eq algorithm [] then text "round-robin" else algorithm;
  status = LbStatus.pending;
  version = 1;
}

-- The target that `AddTarget` makes.
abbrev pub new_target : ℕ → ℕ → ℕ → ℤ → ℤ → LbTarget
new_target id lb_id inst_id port weight = record {
  id = id;
  lb_id = lb_id;
  instance_id = inst_id;
  port = port;
  weight = if eq_ℤ weight (pos 0) then pos 1 else weight;
  health = Health.unknown;
}

module _ {O : Type 0} (b : Backend O) where
  -- `Create` after the test of the key.
  unfoldable pub create_fresh : Text → ℕ → ℤ → Text → Text → Action (Tables O) LoadBalancer
  create_fresh name vpc port algorithm key = do
    map_error (wrap not_found) (get_vpc_by_id b vpc)
    id ← new_id
    user ← ask (λ e. e.user)
    let lb = new_balancer id user key name vpc port algorithm
    create_balancer_row lb
    note "lb.create" user id
    pure lb

  -- `Create`: a known key answers with what is stored.
  unfoldable pub create_balancer : Text → ℕ → ℤ → Text → Text → Action (Tables O) LoadBalancer
  create_balancer name vpc port algorithm [] = create_fresh name vpc port algorithm []
  create_balancer name vpc port algorithm (x ∷ key) = do
    existing ← attempt (get_balancer_by_key (x ∷ key))
    elim existing [ ok lb ↦ pure lb | err missing ↦ create_fresh name vpc port algorithm (x ∷ key) ]

  -- `Get`.
  unfoldable pub get_balancer : ℕ → Action (Tables O) LoadBalancer
  get_balancer id = get_balancer_by_id id

  -- `List`.
  unfoldable pub list_balancers : Action (Tables O) (List LoadBalancer)
  list_balancers = list_balancer_rows

  -- `Delete`: the worker cleans up what is marked here.
  unfoldable pub delete_balancer : ℕ → Action (Tables O) Done
  delete_balancer id = do
    lb ← get_balancer_by_id id
    update_balancer (record lb { status = LbStatus.dropped })
    note "lb.delete" lb.user_id lb.id

  -- `AddTarget`.
  unfoldable pub add_target : ℕ → ℕ → ℤ → ℤ → Action (Tables O) Done
  add_target lb_id inst_id port weight = do
    lb ← get_balancer_by_id lb_id
    inst ← map_error (wrap not_found) (get_instance_by_id b inst_id)
    raise_if (not (refers_to inst.vpc_id lb.vpc_id)) (new lb_cross_vpc)
    id ← new_id
    add_target_row (new_target id lb_id inst_id port weight)
    note "lb.target_add" lb.user_id lb.id

  -- `RemoveTarget`.
  unfoldable pub remove_target : ℕ → ℕ → Action (Tables O) Done
  remove_target lb_id inst_id = do
    lb ← get_balancer_by_id lb_id
    remove_target_row lb_id inst_id
    note "lb.target_remove" lb.user_id lb.id

  -- `ListTargets`: for any user.
  unfoldable pub list_targets : ℕ → Action (Tables O) (List LbTarget)
  list_targets lb_id = list_target_rows lb_id
