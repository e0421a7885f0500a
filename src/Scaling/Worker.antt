-- ===== src/Scaling/Worker.antt =====
-- internal/core/services/autoscaling_worker.go: policies, the clean-up of deleted groups, and the
-- tick `Evaluate` that calls them all.
use thecloud.Prelude.{
  ℕ, ◌+◌, ◌-◌, Bool, false, none, some, List, [], ◌∷◌, map, Text, length, ltb, ◌==◌, if◌then◌else◌,
}
use thecloud.Action.{ok, err, Action, Done, pure, attempt, ignore, with_user, now, ◌>>=◌, ◌>>◌}
use thecloud.Scaling.Types.{ScalingGroup, ScalingPolicy, Link, Tables, Fleet}
use thecloud.Scaling.Repo.{
  list_all_groups, delete_group_row, get_all_policies, update_policy_last_scaled, get_all_instances,
  policies_of, instances_of,
}
use thecloud.Scaling.Reconcile.{outside, wish_of, is_deleting, save, scale_in, reconcile_instances}

module _ {O : Type 0} (fleet : Fleet O) (unique_name : Text → ℕ → Text) where
  -- The cooldown test of `evaluatePolicies`.
  unfoldable pub cooling : ScalingPolicy → Action (Tables O) Bool
  cooling p = elim p.last_scaled_at [
    | none ↦ pure false
    | some last ↦ do time ← now; pure (ltb time (last + p.cooldown_sec))
  ]

  -- The loop of `evaluatePolicies`: the first policy that asks for something is the last one.
  unfoldable pub apply_policies :
      ℕ → ScalingGroup → List ScalingPolicy → Action (Tables O) ScalingGroup
  apply_policies load g [] = pure g
  apply_policies load g (p ∷ ps) = do
    skip ← cooling p
    if skip then apply_policies load g ps else (elim (wish_of p.metric_type g p load) [
      | none ↦ apply_policies load g ps
      | some desired ↦ do
        g' ← save fleet unique_name (record g { desired_count = desired })
        time ← now
        ignore (update_policy_last_scaled p.id time)
        pure g'
    ])

  -- `evaluatePolicies`: nothing without policies, or without metrics.
  unfoldable pub evaluate_policies :
      ScalingGroup → List ℕ → List ScalingPolicy → Action (Tables O) ScalingGroup
  evaluate_policies g instances [] = pure g
  evaluate_policies g instances (p ∷ ps) = do
    time ← now
    r ← attempt (outside (fleet.average_cpu instances (time - 60)))
    elim r [ err x ↦ pure g | ok load ↦ apply_policies load g (p ∷ ps) ]

  -- The loop of `cleanupGroup`: a failed removal is only logged.
  unfoldable pub cleanup_all : ScalingGroup → List ℕ → Action (Tables O) Done
  cleanup_all g [] = pure tt
  cleanup_all g (i ∷ is) = do
    ignore (scale_in fleet unique_name (record g { desired_count = 0 }) i)
    cleanup_all g is

  -- `cleanupGroup`.
  unfoldable pub cleanup_group : ScalingGroup → List ℕ → Action (Tables O) Done
  cleanup_group g [] = ignore (delete_group_row g.id)
  cleanup_group g (i ∷ is) = cleanup_all g (i ∷ is)

  -- The update of `CurrentCount` in `Evaluate`.
  unfoldable pub sync_count : ScalingGroup → List ℕ → Action (Tables O) ScalingGroup
  sync_count g instances =
      if length instances == g.current_count
      then pure g
      else save fleet unique_name (record g { current_count = length instances })

  -- One round of the loop of `Evaluate`.
  unfoldable pub evaluate_group :
      List Link → List ScalingPolicy → ScalingGroup → Action (Tables O) Done
  evaluate_group links policies g = with_user g.user_id (
      let instances = instances_of g.id links in
      if is_deleting g.status then cleanup_group g instances else (do
        g1 ← sync_count g instances
        g2 ← reconcile_instances fleet unique_name g1 instances
        g3 ← evaluate_policies g2 instances (policies_of g.id policies)
        pure tt))

  unfoldable pub evaluate_all :
      List Link → List ScalingPolicy → List ScalingGroup → Action (Tables O) Done
  evaluate_all links policies [] = pure tt
  evaluate_all links policies (g ∷ gs) = do
    evaluate_group links policies g
    evaluate_all links policies gs

  -- `Evaluate`: one tick of the worker. The links and the policies are those of its beginning.
  unfoldable pub evaluate : Action (Tables O) Done
  evaluate = ignore (do
    groups ← list_all_groups
    links ← get_all_instances (map (λ (g : ScalingGroup). g.id) groups)
    policies ← get_all_policies (map (λ (g : ScalingGroup). g.id) groups)
    evaluate_all links policies groups)
