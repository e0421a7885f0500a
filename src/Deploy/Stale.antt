-- ===== src/Deploy/Stale.antt =====
-- `UpdateDeployment` of internal/repositories/postgres/container_repo.go has no version: what that
-- means for a deletion while the worker runs.
use thecloud.Prelude.{
  ℕ, ap, suc, [], ◌∷◌, ◌∙◌, none, List, Text, length, keep, map, false, Option, some, find?,
  find?-modify, find?-true, ◌==◌, ◌&&◌, ◌≡◌, true, refl, arith, inl, inr, Option-cases,
}
use thecloud.Action.{ok, World, Env, bump}
use thecloud.Prelude.Int.{pos}
use thecloud.Deploy.Types.{
  Container, Deployment, DeploymentStatus, Tables, Instances, deleting, ready, finished,
}
use thecloud.Deploy.Repo.{get_containers, set_columns, get_deployment_by_id, update_deployment}
use thecloud.Deploy.Service.{delete_deployment}
use thecloud.Deploy.Worker.{
  is_deleting, reconcile_containers, scale, launch_all, terminate_first, update_status, missing,
  excess, is_settled, reconcile_deployment,
}

-- The row of a deployment.
abbrev pub row_of : {O : Type 0} → ℕ → Tables O → Option Deployment
row_of id t = find? (λ (d : Deployment). d.id == id) t.deployments

abbrev pub status_of : Option Deployment → Option DeploymentStatus
status_of none = none
status_of (some d) = some d.status

module _ {O : Type 0} (e : Env) (w : World (Tables O)) where
  update_deployment_lem :
      (d row : Deployment)
      → row_of d.id w.tables ≡ some row
      → e.fails w.tick ≡ false
      → row_of d.id (update_deployment d e w).1.tables ≡ some (set_columns d row)
  unfolding update_deployment
  update_deployment_lem d row found fine = ground (
    arith,
    find?-true (λ (x : Deployment). x.id == d.id) w.tables.deployments row found,
    find?-modify (λ (x : Deployment). x.id == d.id) (λ x. x.id == d.id) (set_columns d)
        w.tables.deployments (λ x. refl),
  )

  delete_deployment_marks :
      (id : ℕ) (d : Deployment)
      → row_of id w.tables ≡ some d
      → (delete_deployment id e w).0 ≡ ok tt
      → (x : Deployment) × (row_of id (delete_deployment id e w).1.tables ≡ some x)
        × (x.status ≡ deleting)
  unfolding delete_deployment get_deployment_by_id update_deployment
  delete_deployment_marks id d found done =
      elim (Option-cases
        (find? (λ (d : Deployment). d.id == id && d.user_id == e.user) w.tables.deployments)) [
          | inl foreign ↦ ground arith
          | inr (own, here) ↦ (
            set_columns (record own { status = deleting }) d,
            ground (
              arith,
              find?-true (λ (d : Deployment). d.id == id && d.user_id == e.user)
                  w.tables.deployments own here,
              find?-true (λ (x : Deployment). x.id == id) w.tables.deployments d found,
              find?-modify (λ (x : Deployment). x.id == id) (λ x. x.id == own.id)
                  (set_columns (record own { status = deleting })) w.tables.deployments (λ x. refl),
            ),
            refl,
          )
        ]

module _ {O : Type 0} (instances : Instances O) (unique_name : Text → ℕ → Text) (worker : Env)
    (w : World (Tables O)) (d : Deployment) (r : ℕ) (size : d.replicas ≡ pos r)
    (behind : (d.current_count == r) ≡ false) (alive : is_deleting d.status ≡ false) where
  reconcile_containers-settled :
      (is : List ℕ)
      → length is ≡ r
      → reconcile_containers instances unique_name d is worker w ≡ (
        ok finished,
        (update_deployment (record d { current_count = r; status = ready }) worker w).1,
      )
  unfolding reconcile_containers scale launch_all terminate_first update_status update_deployment
  reconcile_containers-settled is full =
      let none_missing : missing d.replicas (length is) ≡ 0 = rw (size, full) (omega arith) in
      let none_left : excess d.replicas (length is) ≡ 0 = rw (size, full) (omega arith) in
      let settled : is_settled d.replicas (length is) ≡ true = rw (size, full) (ground arith) in
      rw (alive, none_missing, none_left, settled, full, behind) refl

length-links : (cs : List Container) → length (map (λ (c : Container). c.1) cs) ≡ length cs
length-links [] = refl
length-links (c ∷ cs) = ap suc (length-links cs)

module _ {O : Type 0} where
  delete_deployment-containers :
      (id : ℕ) (e : Env) (w : World (Tables O))
      → (delete_deployment id e w).0 ≡ ok tt
      → (delete_deployment id e w).1.tables.containers ≡ w.tables.containers
  unfolding delete_deployment get_deployment_by_id update_deployment
  delete_deployment-containers id e w done = ground arith

  -- The round of a worker that holds a deployment whose containers are there but not yet counted.
  reconcile_deployment-ready :
      (instances : Instances O) (unique_name : Text → ℕ → Text) (worker : Env)
      (w : World (Tables O)) (d x : Deployment) (r : ℕ)
      → d.replicas ≡ pos r
      → (d.current_count == r) ≡ false
      → is_deleting d.status ≡ false
      → length (keep (λ (c : Container). c.0 == d.id) w.tables.containers) ≡ r
      → row_of d.id w.tables ≡ some x
      → ((n : ℕ) → worker.fails n ≡ false)
      → status_of (row_of d.id (reconcile_deployment instances unique_name d worker w).1.tables)
        ≡ some ready
  unfolding reconcile_deployment get_containers
  reconcile_deployment-ready instances unique_name worker w d x r size behind alive full found
        fine =
      let links = keep (λ (c : Container). c.0 == d.id) w.tables.containers in
      let own = record worker { user = d.user_id } in
      let settled = record d { current_count = r; status = ready } in
      rw
        (
          fine w.tick,
          reconcile_containers-settled instances unique_name own (bump w) d r size behind alive
              (map (λ (c : Container). c.1) links) (length-links links ∙ full),
          update_deployment_lem own (bump w) settled x found (fine (suc w.tick)),
        )
        refl

-- A deletion can be undone: if the worker holds a deployment as it was read before a successful
-- `DeleteDeployment`, with all its containers there but not yet counted, the row is marked as
-- `DELETING` by the deletion, and is `READY` after the worker's round, if its calls do not fail.
pub delete_deployment-undone :
    {O : Type 0} (instances : Instances O) (unique_name : Text → ℕ → Text) (e worker : Env)
    (w : World (Tables O)) (d : Deployment) (r : ℕ)
    → d.replicas ≡ pos r
    → (d.current_count == r) ≡ false
    → is_deleting d.status ≡ false
    → length (keep (λ (c : Container). c.0 == d.id) w.tables.containers) ≡ r
    → row_of d.id w.tables ≡ some d
    → (delete_deployment d.id e w).0 ≡ ok tt
    → ((n : ℕ) → worker.fails n ≡ false)
    → (let w' = (delete_deployment d.id e w).1 in
        (status_of (row_of d.id w'.tables) ≡ some deleting)
        × (status_of (row_of d.id (reconcile_deployment instances unique_name d worker w').1.tables)
            ≡ some ready))
delete_deployment-undone instances unique_name e worker w d r size behind alive full found done
      fine =
    let (x, marked, status) = delete_deployment_marks e w d.id d found done in
    (
      rw marked (ap some status),
      reconcile_deployment-ready instances unique_name worker (delete_deployment d.id e w).1 d x r
          size behind alive (rw (delete_deployment-containers d.id e w done) full) marked fine,
    )
