-- ===== src/Deploy/Replicas.antt =====
-- When the worker of internal/core/services/container_worker.go survives a round: the number of
-- replicas decides.
use thecloud.Prelude.{
  ℕ, zero, suc, ◌≤◌, false, List, [], ◌∷◌, map, keep, Text, length, ◌==◌, ◌≡◌, refl, arith, inl,
  inr, Bool-cases,
}
use thecloud.Prelude.Int.{ℤ, pos, negsuc}
use thecloud.Action.{ok, World, Env}
use thecloud.Deploy.Types.{Deployment, Container, Tables, Instances, finished, panicked, scaling}
use thecloud.Deploy.Repo.{get_containers}
use thecloud.Deploy.Service.{create_deployment}
use thecloud.Deploy.Worker.{
  is_deleting, is_current, missing, excess, launch_container, launch_all, terminate_container,
  terminate_first, terminate_all, clean_up, update_status, scale, reconcile_containers,
  reconcile_deployment,
}

module _ {O : Type 0} (instances : Instances O) (unique_name : Text → ℕ → Text) (e : Env) where
  launch_all_ok :
      (n : ℕ) (d : Deployment) (w : World (Tables O))
      → (launch_all instances unique_name n d e w).0 ≡ ok tt
  unfolding launch_all
  launch_all_ok zero d w = refl
  launch_all_ok (suc n) d w =
      ground (arith, launch_all_ok n d (launch_container instances unique_name d e w).1)

  terminate_first_ok :
      (n : ℕ) (d : Deployment) (is : List ℕ) (w : World (Tables O))
      → n ≤ length is
      → (terminate_first instances unique_name n d is e w).0 ≡ ok finished
  unfolding terminate_first
  terminate_first_ok zero d is w few = refl
  terminate_first_ok (suc n) d [] w few = absurd (omega (arith, few))
  terminate_first_ok (suc n) d (i ∷ is) w few = ground (
    arith,
    terminate_first_ok n d is (terminate_container instances unique_name d i e w).1
        (omega (arith, few)),
  )

  terminate_all_ok :
      (d : Deployment) (is : List ℕ) (w : World (Tables O))
      → (terminate_all instances unique_name d is e w).0 ≡ ok finished
  unfolding terminate_all
  terminate_all_ok d [] w = refl
  terminate_all_ok d (i ∷ is) w =
      terminate_all_ok d is (terminate_container instances unique_name d i e w).1

  clean_up_ok :
      (d : Deployment) (is : List ℕ) (w : World (Tables O))
      → (clean_up instances unique_name d is e w).0 ≡ ok finished
  unfolding clean_up
  clean_up_ok d [] w = refl
  clean_up_ok d (i ∷ is) w = terminate_all_ok d (i ∷ is) w

  update_status_ok :
      (d : Deployment) (n : ℕ) (w : World (Tables O))
      → (update_status instances unique_name d n e w).0 ≡ ok finished
  unfolding update_status
  update_status_ok d n w = elim (Bool-cases (is_current d n)) [
    | inl same ↦ rw same refl
    | inr other ↦ rw other refl
  ]

  scale_ok :
      (d : Deployment) (r : ℕ) (is : List ℕ) (w : World (Tables O))
      → d.replicas ≡ pos r
      → (scale instances unique_name d is e w).0 ≡ ok finished
  unfolding scale
  scale_ok d r is w whole =
      let few : excess d.replicas (length is) ≤ length is = rw whole (omega arith) in
      let o = launch_all instances unique_name (missing d.replicas (length is)) d e w in
      ground (
        arith,
        launch_all_ok (missing d.replicas (length is)) d w,
        terminate_first_ok (excess d.replicas (length is)) d is o.1 few,
      )

  reconcile_containers_ok :
      (d : Deployment) (r : ℕ) (is : List ℕ) (w : World (Tables O))
      → d.replicas ≡ pos r
      → (reconcile_containers instances unique_name d is e w).0 ≡ ok finished
  unfolding reconcile_containers
  reconcile_containers_ok d r is w whole = elim (Bool-cases (is_deleting d.status)) [
    | inl gone ↦ rw gone (clean_up_ok d is w)
    | inr here ↦ rw here (
        ground (
          arith,
          scale_ok d r is w whole,
          update_status_ok d (length is) (scale instances unique_name d is e w).1,
        ))
  ]

module _ {O : Type 0} (instances : Instances O) (unique_name : Text → ℕ → Text) (e : Env) where
  -- A deployment whose number of replicas is not negative never makes the worker panic, whatever
  -- calls fail and whatever the instances answer.
  pub reconcile_deployment-finished :
      (d : Deployment) (r : ℕ) (w : World (Tables O))
      → d.replicas ≡ pos r
      → (reconcile_deployment instances unique_name d e w).0 ≡ ok finished
  unfolding reconcile_deployment get_containers
  reconcile_deployment-finished d r w whole =
      let e' : Env = record e { user = d.user_id } in
      ground (
        arith,
        reconcile_containers_ok instances unique_name e' d r
            (map (λ (c : Container). c.1)
              (keep (λ (c : Container). c.0 == d.id) w.tables.containers))
            (get_containers d.id e' w).1 whole,
      )

  negative_panics :
      (d : Deployment) (n : ℕ) (w : World (Tables O))
      → d.replicas ≡ negsuc n
      → d.status ≡ scaling
      → keep (λ (c : Container). c.0 == d.id) w.tables.containers ≡ []
      → e.fails w.tick ≡ false
      → (reconcile_deployment instances unique_name d e w).0 ≡ ok panicked
  unfolding reconcile_deployment get_containers reconcile_containers scale launch_all
      terminate_first
  negative_panics d n w below fresh empty fine = rw (fine, empty, below, fresh) refl

  create_deployment_lem :
      (name image ports : Text) (replicas : ℤ) (w : World (Tables O)) {d : Deployment}
      → (create_deployment name image replicas ports e w).0 ≡ ok d
      → (d.replicas ≡ replicas) × (d.status ≡ scaling)
  unfolding create_deployment
  create_deployment_lem name image ports replicas w done = (ground arith, ground arith)

-- A deployment that is created with a negative number of replicas makes the worker panic in the
-- next round that sees it without containers and with an answering database.
pub create_deployment-panics :
    {O : Type 0} (instances : Instances O) (unique_name : Text → ℕ → Text) (e later : Env)
    (w w' : World (Tables O)) (name image ports : Text) (n : ℕ) {d : Deployment}
    → (create_deployment name image (negsuc n) ports e w).0 ≡ ok d
    → keep (λ (c : Container). c.0 == d.id) w'.tables.containers ≡ []
    → later.fails w'.tick ≡ false
    → (reconcile_deployment instances unique_name d later w').0 ≡ ok panicked
create_deployment-panics instances unique_name e later w w' name image ports n {d} done empty fine =
    let (below, fresh) =
      create_deployment_lem instances unique_name e name image ports (negsuc n) w done in
    negative_panics instances unique_name later d n w' below fresh empty fine
