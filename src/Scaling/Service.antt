-- ===== src/Scaling/Service.antt =====
-- internal/core/services/autoscaling.go. The integers of a request are signed; those of a row are
-- not negative, since the service and the constraints refuse such rows.
use thecloud.Prelude.{
  ℕ, Bool, Option, none, some, [], ◌∷◌, Text, leb, ◌==◌, ◌&&◌, ◌||◌, any, if◌then◌else◌,
}
use thecloud.Prelude.Int.{ℤ, pos, ltb_ℤ, to_ℕ}
use thecloud.Errors.{new, not_found, invalid_input, resource_limit_exceeded}
use thecloud.Action.{
  Result, ok, err, Action, Done, pure, ask, call, attempt, raise_if, new_id, note, ◌>>=◌, ◌>>◌,
}
use thecloud.Scaling.Types.{
  ScalingGroup, ScalingPolicy, Metric, Tables, max_instances_hard_limit, max_scaling_groups_per_vpc,
  min_cooldown_seconds, active, deleting,
}
use thecloud.Scaling.Repo.{
  create_group_row, get_group_by_id, get_group_by_idempotency_key, count_groups_by_vpc,
  update_group, create_policy_row, delete_policy_row,
}

-- `ports.CreateScalingGroupParams`.
pub record CreateScalingGroupParams : Type 0 where
  pub name : Text
  pub vpc_id : ℕ
  pub image : Text
  pub ports : Text
  pub min_instances : ℤ
  pub max_instances : ℤ
  pub desired_count : ℤ
  pub load_balancer_id : Option ℕ
  pub idempotency_key : Text

-- `ports.CreateScalingPolicyParams`.
pub record CreateScalingPolicyParams : Type 0 where
  pub group_id : ℕ
  pub name : Text
  pub metric_type : Metric
  pub target_value : ℕ
  pub scale_out : ℕ
  pub scale_in : ℕ
  pub cooldown_sec : ℤ

-- The four tests of `CreateGroup` on its parameters.
abbrev pub refused : CreateScalingGroupParams → Bool
refused p =
    ltb_ℤ (pos max_instances_hard_limit) p.max_instances
    || ltb_ℤ p.min_instances (pos 0)
    || ltb_ℤ p.max_instances p.min_instances
    || ltb_ℤ p.desired_count p.min_instances
    || ltb_ℤ p.max_instances p.desired_count

-- The group that `CreateGroup` builds.
abbrev pub new_group : CreateScalingGroupParams → ℕ → ℕ → ScalingGroup
new_group p id user = record {
  id = id;
  user_id = user;
  idempotency_key = p.idempotency_key;
  name = p.name;
  vpc_id = p.vpc_id;
  load_balancer_id = p.load_balancer_id;
  image = p.image;
  ports = p.ports;
  min_instances = to_ℕ p.min_instances;
  max_instances = to_ℕ p.max_instances;
  desired_count = to_ℕ p.desired_count;
  current_count = 0;
  status = active;
  failure_count = 0;
  last_failure_at = none;
  version = 1;
}

-- The policy that `CreatePolicy` builds.
abbrev pub new_policy : CreateScalingPolicyParams → ℕ → ScalingPolicy
new_policy p id = record {
  id = id;
  scaling_group_id = p.group_id;
  name = p.name;
  metric_type = p.metric_type;
  target_value = p.target_value;
  scale_out_step = p.scale_out;
  scale_in_step = p.scale_in;
  cooldown_sec = to_ℕ p.cooldown_sec;
  last_scaled_at = none;
}

-- What the first lookup of `CreateGroup` found: nothing without a key, and an error is none.
abbrev pub existing : Result ScalingGroup → Option ScalingGroup
existing (ok g) = some g
existing (err x) = none

module _ {O : Type 0} where
  -- `VpcRepository.GetByID`: the caller's own VPCs only.
  unfoldable pub get_vpc : ℕ → Action (Tables O) Done
  get_vpc id e w =
      call
        (λ t. (
          if any (λ (v : ℕ × ℕ). v.0 == id && v.1 == e.user) t.vpcs
              then ok tt
              else err (new not_found),
          t,
        ))
        e w

  unfoldable pub find_existing : Text → Action (Tables O) (Option ScalingGroup)
  find_existing [] = pure none
  find_existing (b ∷ key) = do
    found ← attempt (get_group_by_idempotency_key (b ∷ key))
    pure (existing found)

  -- `CreateGroup` after the lookup of the idempotency key.
  unfoldable pub create_new_group : CreateScalingGroupParams → Action (Tables O) ScalingGroup
  create_new_group p = do
    raise_if (refused p) (new invalid_input)
    get_vpc p.vpc_id
    count ← count_groups_by_vpc p.vpc_id
    raise_if (leb max_scaling_groups_per_vpc count) (new resource_limit_exceeded)
    id ← new_id
    user ← ask (λ e. e.user)
    let group : ScalingGroup = new_group p id user
    create_group_row group
    note "asg.group_create" group.user_id group.id
    pure group

  -- `CreateGroup`.
  unfoldable pub create_group : CreateScalingGroupParams → Action (Tables O) ScalingGroup
  create_group p = do
    found ← find_existing p.idempotency_key
    elim found [ none ↦ create_new_group p | some g ↦ pure g ]

  -- `DeleteGroup`: the worker cleans up what is marked here.
  unfoldable pub delete_group : ℕ → Action (Tables O) Done
  delete_group id = do
    group ← get_group_by_id id
    saved ← update_group (record group { status = deleting; min_instances = 0; desired_count = 0 })
    note "asg.group_delete" saved.user_id saved.id

  -- `SetDesiredCapacity`.
  unfoldable pub set_desired_capacity : ℕ → ℤ → Action (Tables O) Done
  set_desired_capacity id desired = do
    group ← get_group_by_id id
    raise_if (ltb_ℤ desired (pos group.min_instances) || ltb_ℤ (pos group.max_instances) desired)
        (new invalid_input)
    saved ← update_group (record group { desired_count = to_ℕ desired })
    pure tt

  -- `CreatePolicy`.
  unfoldable pub create_policy : CreateScalingPolicyParams → Action (Tables O) ScalingPolicy
  create_policy p = do
    group ← get_group_by_id p.group_id
    raise_if (ltb_ℤ p.cooldown_sec (pos min_cooldown_seconds)) (new invalid_input)
    id ← new_id
    let policy : ScalingPolicy = new_policy p id
    create_policy_row policy
    pure policy

  -- `DeletePolicy`: any policy, whoever owns its group.
  unfoldable pub delete_policy : ℕ → Action (Tables O) Done
  delete_policy id = delete_policy_row id
