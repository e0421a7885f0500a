-- ===== src/Scaling/Types.antt =====
-- internal/core/domain/autoscaling.go, the tables of auto-scaling, and what the worker asks of the
-- instances, the load balancers and the metrics.
use thecloud.Prelude.{ℕ, ◌*◌, Option, List, Text}
use thecloud.Action.{Action, Done}

abbrev pub max_instances_hard_limit : ℕ
max_instances_hard_limit = 20

abbrev pub max_scaling_groups_per_vpc : ℕ
max_scaling_groups_per_vpc = 5

abbrev pub min_cooldown_seconds : ℕ
min_cooldown_seconds = 60

abbrev pub max_failure_count : ℕ
max_failure_count = 5

-- `failureBackoffMinutes`, in seconds.
abbrev pub failure_backoff : ℕ
failure_backoff = 5 * 60

pub data Status : Type 0 where
  active updating deleting deleted : Status

pub record ScalingGroup : Type 0 where
  pub id : ℕ
  pub user_id : ℕ
  pub idempotency_key : Text
  pub name : Text
  pub vpc_id : ℕ
  pub load_balancer_id : Option ℕ
  pub image : Text
  pub ports : Text
  pub min_instances : ℕ
  pub max_instances : ℕ
  pub desired_count : ℕ
  pub current_count : ℕ
  pub status : Status
  pub failure_count : ℕ
  pub last_failure_at : Option ℕ
  pub version : ℕ

-- `cpu` is the one metric that the worker knows. Targets are in hundredths of a percent, as the
-- column `DECIMAL(5,2)` holds them.
pub data Metric : Type 0 where
  cpu memory : Metric

pub record ScalingPolicy : Type 0 where
  pub id : ℕ
  pub scaling_group_id : ℕ
  pub name : Text
  pub metric_type : Metric
  pub target_value : ℕ
  pub scale_out_step : ℕ
  pub scale_in_step : ℕ
  pub cooldown_sec : ℕ
  pub last_scaled_at : Option ℕ

-- A row of `scaling_group_instances`: a group and an instance.
abbrev pub Link : Type 0
Link = ℕ × ℕ

-- `scaling_groups`, `scaling_policies` and `scaling_group_instances`, the identifiers and owners
-- of `vpcs`, and the state of the services that the worker calls.
pub record Tables (O : Type 0) : Type 0 where
  pub groups : List ScalingGroup
  pub policies : List ScalingPolicy
  pub links : List Link
  pub vpcs : List (ℕ × ℕ)
  pub outside : O

-- The operations of InstanceService, LBService and the metrics that the worker uses.
pub record Fleet (O : Type 0) : Type 0 where
  pub launch : Text → Text → Text → ℕ → Action O ℕ
  pub terminate : ℕ → Action O Done
  pub add_target : ℕ → ℕ → Action O Done
  pub remove_target : ℕ → ℕ → Action O Done
  pub average_cpu : List ℕ → ℕ → Action O ℕ
