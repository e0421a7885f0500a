-- ===== src/Deploy/Repo.antt =====
-- internal/repositories/postgres/container_repo.go, with the constraints of its migration.
use thecloud.Prelude.{
  ℕ, Bool, Option, none, some, List, [], ◌∷◌, ◌++◌, map, text_eq, keep, find?, any, modify, ◌==◌,
  ◌&&◌, ◌||◌, not, if◌then◌else◌,
}
use thecloud.Errors.{plain}
use thecloud.Action.{Result, ok, err, Action, Done, call}
use thecloud.Deploy.Types.{Deployment, Container, Tables}

abbrev row_or_error : Option Deployment → Result Deployment
row_or_error none = err plain
row_or_error (some d) = ok d

abbrev pub is_container : ℕ → ℕ → Container → Bool
is_container dep inst c = c.0 == dep && c.1 == inst

-- The columns that `UpdateDeployment` sets.
abbrev pub set_columns : Deployment → Deployment → Deployment
set_columns d row = record row {
  replicas = d.replicas;
  current_count = d.current_count;
  status = d.status;
}

module _ {O : Type 0} where
  -- `CreateDeployment`.
  unfoldable pub create_deployment_row : Deployment → Action (Tables O) Done
  create_deployment_row d = call λ t.
      if any (λ (x : Deployment). x.id == d.id || (x.user_id == d.user_id && text_eq x.name d.name))
        t.deployments
      then (err plain, t)
      else (ok tt, record t { deployments = t.deployments ++ d ∷ [] })

  -- `GetDeploymentByID`.
  unfoldable pub get_deployment_by_id : ℕ → ℕ → Action (Tables O) Deployment
  get_deployment_by_id id user = call λ t.
      (row_or_error (find? (λ (d : Deployment). d.id == id && d.user_id == user) t.deployments), t)

  -- `ListDeployments`.
  unfoldable pub list_deployments_of : ℕ → Action (Tables O) (List Deployment)
  list_deployments_of user =
      call λ t. (ok (keep (λ (d : Deployment). d.user_id == user) t.deployments), t)

  -- `UpdateDeployment`: no version, no user, and no error if there is no such row.
  unfoldable pub update_deployment : Deployment → Action (Tables O) Done
  update_deployment d = call λ t. (
    ok tt,
    record t {
      deployments = modify (λ (x : Deployment). x.id == d.id) (set_columns d) t.deployments;
    },
  )

  -- `DeleteDeployment`, with the cascade to the containers.
  unfoldable pub delete_deployment_row : ℕ → Action (Tables O) Done
  delete_deployment_row id = call λ t. (
    ok tt,
    record t {
      deployments = keep (λ (d : Deployment). not (d.id == id)) t.deployments;
      containers = keep (λ (c : Container). not (c.0 == id)) t.containers;
    },
  )

  -- `AddContainer`: an instance belongs to one deployment at most, which is there.
  unfoldable pub add_container : ℕ → ℕ → Action (Tables O) Done
  add_container dep inst = call λ t.
      if any (λ (c : Container). c.1 == inst) t.containers
        || not (any (λ (d : Deployment). d.id == dep) t.deployments)
      then (err plain, t)
      else (ok tt, record t { containers = t.containers ++ (dep, inst) ∷ [] })

  -- `RemoveContainer`.
  unfoldable pub remove_container : ℕ → ℕ → Action (Tables O) Done
  remove_container dep inst =
      call λ t.
        (ok tt, record t { containers = keep (λ c. not (is_container dep inst c)) t.containers })

  -- `GetContainers`.
  unfoldable pub get_containers : ℕ → Action (Tables O) (List ℕ)
  get_containers dep = call λ t.
      (ok (map (λ (c : Container). c.1) (keep (λ (c : Container). c.0 == dep) t.containers)), t)

  -- `ListAllDeployments`.
  unfoldable pub list_all_deployments : Action (Tables O) (List Deployment)
  list_all_deployments = call λ t. (ok t.deployments, t)
