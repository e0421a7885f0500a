-- ===== src/Deploy/Service.antt =====
-- internal/core/services/container.go.
use thecloud.Prelude.{ℕ, List, Text, ◌==◌}
use thecloud.Prelude.Int.{ℤ}
use thecloud.Errors.{plain}
use thecloud.Action.{Action, Done, pure, ask, raise_if, new_id, note, nil_id, ◌>>=◌, ◌>>◌}
use thecloud.Deploy.Types.{Deployment, Tables, scaling, deleting}
use thecloud.Deploy.Repo.{
  create_deployment_row, get_deployment_by_id, list_deployments_of, update_deployment,
}

module _ {O : Type 0} where
  -- `CreateDeployment`: the number of replicas is not tested.
  unfoldable pub create_deployment : Text → Text → ℤ → Text → Action (Tables O) Deployment
  create_deployment name image replicas ports = do
    user ← ask (λ e. e.user)
    raise_if (user == nil_id) plain
    id ← new_id
    let d : Deployment = record {
      id = id;
      user_id = user;
      name = name;
      image = image;
      replicas = replicas;
      current_count = 0;
      ports = ports;
      status = scaling;
    }
    create_deployment_row d
    note "DEPLOYMENT_CREATED" user id
    note "container.deployment_create" user id
    pure d

  -- `ListDeployments`.
  unfoldable pub list_deployments : Action (Tables O) (List Deployment)
  list_deployments = do
    user ← ask (λ e. e.user)
    raise_if (user == nil_id) plain
    list_deployments_of user

  -- `GetDeployment`.
  unfoldable pub get_deployment : ℕ → Action (Tables O) Deployment
  get_deployment id = do
    user ← ask (λ e. e.user)
    raise_if (user == nil_id) plain
    get_deployment_by_id id user

  -- `ScaleDeployment`.
  unfoldable pub scale_deployment : ℕ → ℤ → Action (Tables O) Done
  scale_deployment id replicas = do
    user ← ask (λ e. e.user)
    d ← get_deployment_by_id id user
    update_deployment (record d { replicas = replicas; status = scaling })
    note "container.deployment_scale" user id

  -- `DeleteDeployment`: the worker cleans up what is marked here.
  unfoldable pub delete_deployment : ℕ → Action (Tables O) Done
  delete_deployment id = do
    user ← ask (λ e. e.user)
    d ← get_deployment_by_id id user
    update_deployment (record d { status = deleting })
    note "container.deployment_delete" user id
