-- ===== src/Deploy/Worker.antt =====
-- internal/core/services/container_worker.go.
use thecloud.Prelude.{
  ℕ, zero, suc, ◌+◌, ◌-◌, Bool, true, false, List, [], ◌∷◌, Text, length, ◌==◌, ◌&&◌, if◌then◌else◌,
}
use thecloud.Prelude.Int.{ℤ, pos, negsuc}
use thecloud.Action.{
  Result, ok, err, World, Action, Done, pure, raise, attempt, ignore, with_user, now, ◌>>=◌, ◌>>◌,
}
use thecloud.Deploy.Types.{
  Deployment, DeploymentStatus, Tables, Instances, Fate, scaling, ready, degraded, deleting,
  finished, panicked,
}
use thecloud.Deploy.Repo.{
  update_deployment, delete_deployment_row, add_container, remove_container, get_containers,
  list_all_deployments,
}

abbrev inside : {O A : Type 0} → World (Tables O) → Result A × World O → Result A × World (Tables O)
inside w (r, w') = (
  r,
  record { tables = record w.tables { outside = w'.tables }; journal = w'.journal; tick = w'.tick },
)

abbrev pub outside : {O A : Type 0} → Action O A → Action (Tables O) A
outside m e w =
    inside w (m e (record { tables = w.tables.outside; journal = w.journal; tick = w.tick }))

abbrev pub is_deleting : DeploymentStatus → Bool
is_deleting deleting = true
is_deleting scaling = false
is_deleting ready = false
is_deleting degraded = false

abbrev pub is_ready : DeploymentStatus → Bool
is_ready ready = true
is_ready scaling = false
is_ready degraded = false
is_ready deleting = false

-- `dep.Replicas - current` and `current - dep.Replicas`, where they are positive.
abbrev pub missing : ℤ → ℕ → ℕ
missing (pos r) current = r - current
missing (negsuc n) current = 0

abbrev pub excess : ℤ → ℕ → ℕ
excess (pos r) current = current - r
excess (negsuc n) current = suc (current + n)

-- The status that the worker writes when a deployment is not in the state that it saw.
abbrev pub is_settled : ℤ → ℕ → Bool
is_settled (pos r) current = r == current
is_settled (negsuc n) current = false

abbrev pub is_current : Deployment → ℕ → Bool
is_current d current =
    (d.current_count == current)
    && (if is_settled d.replicas current then is_ready d.status else (elim d.status [
      | scaling ↦ true
      | ready ↦ false
      | degraded ↦ false
      | deleting ↦ false
    ]))

-- `unique_name` is the `Sprintf` of a deployment's name and the clock.
module _ {O : Type 0} (instances : Instances O) (unique_name : Text → ℕ → Text) where
  -- `launchContainer`: an instance that is not linked is terminated.
  unfoldable pub launch_container : Deployment → Action (Tables O) Done
  launch_container d = do
    time ← now
    inst ← outside (instances.launch (unique_name d.name time) d.image d.ports)
    linked ← attempt (add_container d.id inst)
    elim linked [ ok u ↦ pure tt | err x ↦ do ignore (outside (instances.terminate inst)); raise x ]

  -- `terminateContainer`.
  unfoldable pub terminate_container : Deployment → ℕ → Action (Tables O) Done
  terminate_container d inst = do remove_container d.id inst; outside (instances.terminate inst)

  -- The two loops of `reconcileDeployment` stop at the first failure.
  unfoldable pub launch_all : ℕ → Deployment → Action (Tables O) Done
  launch_all zero d = pure tt
  launch_all (suc n) d = do
    r ← attempt (launch_container d)
    elim r [ ok u ↦ launch_all n d | err x ↦ pure tt ]

  -- `containerIDs[i]` out of range is a panic.
  unfoldable pub terminate_first : ℕ → Deployment → List ℕ → Action (Tables O) Fate
  terminate_first zero d is = pure finished
  terminate_first (suc n) d [] = pure panicked
  terminate_first (suc n) d (i ∷ is) = do
    r ← attempt (terminate_container d i)
    elim r [ ok u ↦ terminate_first n d is | err x ↦ pure finished ]

  -- The loop over the containers of a deployment that is to be deleted.
  unfoldable pub terminate_all : Deployment → List ℕ → Action (Tables O) Fate
  terminate_all d [] = pure finished
  terminate_all d (i ∷ is) = do ignore (terminate_container d i); terminate_all d is

  unfoldable pub clean_up : Deployment → List ℕ → Action (Tables O) Fate
  clean_up d [] = do ignore (delete_deployment_row d.id); pure finished
  clean_up d (i ∷ is) = terminate_all d (i ∷ is)

  -- The end of `reconcileDeployment`: status and count, as they were before this round.
  unfoldable pub update_status : Deployment → ℕ → Action (Tables O) Fate
  update_status d current = if is_current d current then pure finished else (do
    ignore (
        update_deployment (record d {
          current_count = current;
          status = if is_settled d.replicas current then ready else scaling;
        }))
    pure finished)

  -- The scaling of `reconcileDeployment`.
  unfoldable pub scale : Deployment → List ℕ → Action (Tables O) Fate
  scale d is = do
    launch_all (missing d.replicas (length is)) d
    terminate_first (excess d.replicas (length is)) d is

  -- `reconcileDeployment`: a panic leaves nothing to do.
  unfoldable pub reconcile_containers : Deployment → List ℕ → Action (Tables O) Fate
  reconcile_containers d is = if is_deleting d.status then clean_up d is else (do
    fate ← scale d is
    elim fate [ finished ↦ update_status d (length is) | panicked ↦ pure panicked ])

  unfoldable pub reconcile_deployment : Deployment → Action (Tables O) Fate
  reconcile_deployment d = with_user d.user_id (do
    found ← attempt (get_containers d.id)
    elim found [ err x ↦ pure finished | ok is ↦ reconcile_containers d is ])

  unfoldable pub reconcile_all : List Deployment → Action (Tables O) Fate
  reconcile_all [] = pure finished
  reconcile_all (d ∷ ds) = do
    fate ← reconcile_deployment d
    elim fate [ finished ↦ reconcile_all ds | panicked ↦ pure panicked ]

  -- `Reconcile`.
  unfoldable pub reconcile : Action (Tables O) Fate
  reconcile = do
    found ← attempt list_all_deployments
    elim found [ err x ↦ pure finished | ok ds ↦ reconcile_all ds ]
