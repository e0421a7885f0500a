-- ===== src/Deploy/Types.antt =====
-- internal/core/domain/container.go and the tables of deployments. The number of replicas is signed:
-- no test of the code keeps it from being negative.
use thecloud.Prelude.{ℕ, List, Text}
use thecloud.Prelude.Int.{ℤ}
use thecloud.Action.{Action, Done}

pub data DeploymentStatus : Type 0 where
  scaling ready degraded deleting : DeploymentStatus

pub record Deployment : Type 0 where
  pub id : ℕ
  pub user_id : ℕ
  pub name : Text
  pub image : Text
  pub replicas : ℤ
  pub current_count : ℕ
  pub ports : Text
  pub status : DeploymentStatus

-- A row of `deployment_containers`: a deployment and an instance.
abbrev pub Container : Type 0
Container = ℕ × ℕ

pub record Tables (O : Type 0) : Type 0 where
  pub deployments : List Deployment
  pub containers : List Container
  pub outside : O

-- The operations of InstanceService that the worker uses: name, image and ports of a new instance.
pub record Instances (O : Type 0) : Type 0 where
  pub launch : Text → Text → Text → Action O ℕ
  pub terminate : ℕ → Action O Done

-- How a piece of the worker ends: an index out of range is a panic, which ends the process.
pub data Fate : Type 0 where
  finished panicked : Fate
