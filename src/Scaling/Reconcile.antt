-- ===== src/Scaling/Reconcile.antt =====
-- internal/core/services/autoscaling_worker.go up to `reconcileInstances`. A group that the worker
-- changes is a local value: a failed `UpdateGroup` leaves the changes in it and only the version as
-- it was. Events are recorded for the user of the context.
use thecloud.Prelude.{
  ℕ, zero, suc, ◌+◌, ◌-◌, Bool, true, false, Option, none, some, List, [], ◌∷◌, Text, take, length,
  ltb, ◌&&◌, if◌then◌else◌,
}
use mathlib.Core.List.{reverse}
use thecloud.Action.{
  Result, ok, err, World, Action, Done, pure, ask, attempt, ignore, now, note, ◌>>=◌, ◌>>◌,
}
use thecloud.Ports.{to_dynamic_ports}
use thecloud.Scaling.Types.{
  Status, ScalingGroup, ScalingPolicy, Metric, Tables, Fleet, max_failure_count, failure_backoff,
  deleting, active, updating, deleted, cpu, memory,
}
use thecloud.Scaling.Repo.{update_group, add_instance_to_group, remove_instance_from_group}

-- What an action on the services outside does to the whole.
abbrev pub inside :
    {O A : Type 0} → World (Tables O) → Result A × World O → Result A × World (Tables O)
inside w (r, w') = (
  r,
  record { tables = record w.tables { outside = w'.tables }; journal = w'.journal; tick = w'.tick },
)

abbrev pub outside : {O A : Type 0} → Action O A → Action (Tables O) A
outside m e w =
    inside w (m e (record { tables = w.tables.outside; journal = w.journal; tick = w.tick }))

-- `_ = w.repo.UpdateGroup(ctx, group)`: the group, with its new version if the update was made.
abbrev pub or_same : ScalingGroup → Result ScalingGroup → ScalingGroup
or_same g (ok h) = h
or_same g (err x) = g

-- The desired count that a policy asks for, if it asks for one. The load is in hundredths of a
-- percent; scaling in waits for ten percent below the target.
unfoldable pub wish : ScalingGroup → ScalingPolicy → ℕ → Option ℕ
wish g p load =
    if ltb p.target_value load
    then if ltb g.current_count g.max_instances
      then some (
          if ltb g.max_instances (g.current_count + p.scale_out_step)
          then g.max_instances
          else g.current_count + p.scale_out_step)
      else none
    else if ltb (load + 1000) p.target_value && ltb g.min_instances g.current_count
    then some (
        if ltb (g.current_count - p.scale_in_step) g.min_instances
        then g.min_instances
        else g.current_count - p.scale_in_step)
    else none

-- The metric types other than `cpu` are passed over.
abbrev pub wish_of : Metric → ScalingGroup → ScalingPolicy → ℕ → Option ℕ
wish_of cpu g p load = wish g p load
wish_of memory g p load = none

abbrev pub is_deleting : Status → Bool
is_deleting deleting = true
is_deleting active = false
is_deleting updating = false
is_deleting deleted = false

-- `unique_name` is the `Sprintf` of a group's name and the clock.
module _ {O : Type 0} (fleet : Fleet O) (unique_name : Text → ℕ → Text) where
  unfoldable pub save : ScalingGroup → Action (Tables O) ScalingGroup
  save g = do r ← attempt (update_group g); pure (or_same g r)

  -- The load balancer's answer is only logged.
  unfoldable pub join_balancer : Option ℕ → ℕ → Action (Tables O) Done
  join_balancer none inst = pure tt
  join_balancer (some lb) inst = ignore (outside (fleet.add_target lb inst))

  unfoldable pub leave_balancer : Option ℕ → ℕ → Action (Tables O) Done
  leave_balancer none inst = pure tt
  leave_balancer (some lb) inst = ignore (outside (fleet.remove_target lb inst))

  -- `scaleOut`.
  unfoldable pub scale_out : ScalingGroup → Action (Tables O) Done
  scale_out g = do
    time ← now
    inst ←
        outside (fleet.launch (unique_name g.name time) g.image (to_dynamic_ports g.ports) g.vpc_id)
    add_instance_to_group g.id inst
    join_balancer g.load_balancer_id inst
    user ← ask (λ e. e.user)
    note "AUTOSCALING_SCALE_OUT" user g.id

  -- `scaleIn`.
  unfoldable pub scale_in : ScalingGroup → ℕ → Action (Tables O) Done
  scale_in g inst = do
    leave_balancer g.load_balancer_id inst
    remove_instance_from_group g.id inst
    ignore (outside (fleet.terminate inst))
    user ← ask (λ e. e.user)
    note "AUTOSCALING_SCALE_IN" user g.id

  -- `recordFailure`.
  unfoldable pub record_failure : ScalingGroup → Action (Tables O) ScalingGroup
  record_failure g = do
    time ← now
    save (record g { failure_count = g.failure_count + 1; last_failure_at = some time })

  -- `resetFailures`.
  unfoldable pub reset_failures : ScalingGroup → Action (Tables O) ScalingGroup
  reset_failures g =
      if ltb 0 g.failure_count
      then save (record g { failure_count = 0; last_failure_at = none })
      else pure g

  -- The loop of `reconcileInstances` that adds instances: it stops at the first failure.
  unfoldable pub scale_out_all : ℕ → ScalingGroup → Action (Tables O) ScalingGroup
  scale_out_all zero g = pure g
  scale_out_all (suc n) g = do
    r ← attempt (scale_out g)
    elim r [ ok d ↦ do g' ← reset_failures g; scale_out_all n g' | err x ↦ record_failure g ]

  -- The loop that removes instances: it stops at the first failure.
  unfoldable pub scale_in_all : List ℕ → ScalingGroup → Action (Tables O) Done
  scale_in_all [] g = pure tt
  scale_in_all (i ∷ is) g = do
    r ← attempt (scale_in g i)
    elim r [ ok d ↦ scale_in_all is g | err x ↦ pure tt ]

  -- The two tests at the head of `reconcileInstances`.
  unfoldable pub clamp_desired : ScalingGroup → Action (Tables O) ScalingGroup
  clamp_desired g = do
    g1 ←
        (if ltb g.desired_count g.min_instances
          then save (record g { desired_count = g.min_instances })
          else pure g)
    if ltb g1.max_instances g1.desired_count
        then save (record g1 { desired_count = g1.max_instances })
        else pure g1

  -- `shouldSkipDueToFailures`.
  unfoldable pub should_skip : ScalingGroup → Action (Tables O) Bool
  should_skip g =
      if ltb g.failure_count max_failure_count then pure false else (elim g.last_failure_at [
        | none ↦ pure false
        | some failed ↦ do time ← now; pure (ltb time (failed + failure_backoff))
      ])

  -- The scaling out of `reconcileInstances`, unless the group is in its backoff.
  unfoldable pub scale_out_unless : ℕ → ScalingGroup → Action (Tables O) ScalingGroup
  scale_out_unless needed g = do
    skip ← should_skip g
    if skip then pure g else scale_out_all needed g

  -- `reconcileInstances`: the last instances go first.
  unfoldable pub reconcile_instances : ScalingGroup → List ℕ → Action (Tables O) ScalingGroup
  reconcile_instances g0 instances = do
    g ← clamp_desired g0
    let current : ℕ = length instances
    if ltb current g.desired_count
        then scale_out_unless (g.desired_count - current) g
        else if ltb g.desired_count current
        then (do scale_in_all (take (current - g.desired_count) (reverse instances)) g; pure g)
        else pure g
