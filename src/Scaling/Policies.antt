-- ===== src/Scaling/Policies.antt =====
-- The decisions of internal/core/services/autoscaling_worker.go: what a policy may ask for, and
-- when a group waits after failures.
use thecloud.Prelude.{
  ℕ, ◌+◌, ◌≤◌, ◌<◌, false, some, List, [], ◌∷◌, map, Text, All, ltb, ◌≡◌, subst, inl, inr, arith,
  Bool-cases, ◌⊎◌,
}
use thecloud.Action.{ok, World, Env}
use thecloud.Scaling.Types.{ScalingGroup, ScalingPolicy, Tables, Fleet}
use thecloud.Scaling.Repo.{scanned, list_all_groups}
use thecloud.Scaling.Reconcile.{wish, should_skip}

-- A policy asks for a number within the group's bounds, and only for a reason: for more than the
-- group has, up to the step, when the load is above the target, and for less, down to the step,
-- when the load is more than ten percent below the target.
pub wish-bounds :
    (g : ScalingGroup) (p : ScalingPolicy) (load : ℕ) {desired : ℕ}
    → wish g p load ≡ some desired
    → g.min_instances ≤ g.max_instances
    → g.min_instances ≤ g.current_count
    → g.current_count ≤ g.max_instances
    → 0 < p.scale_out_step
    → 0 < p.scale_in_step
    → (g.min_instances ≤ desired)
      × (desired ≤ g.max_instances)
      × (((p.target_value < load)
            × (g.current_count < desired)
            × (desired ≤ g.current_count + p.scale_out_step))
          ⊎ ((load + 1000 < p.target_value)
              × (desired < g.current_count)
              × (g.current_count ≤ desired + p.scale_in_step)))
unfolding wish
wish-bounds g p load {desired} asked lo low high out in_step =
    elim (Bool-cases (ltb p.target_value load)) [
      | inl hot ↦ (ground arith, ground arith, inl (ground arith, ground arith, ground arith))
      | inr calm ↦ (ground arith, ground arith, inr (ground arith, ground arith, ground arith))
    ]

module _ {O : Type 0} (fleet : Fleet O) (unique_name : Text → ℕ → Text) where
  never_skips :
      (gs : List ScalingGroup) (e : Env) (w : World (Tables O))
      → All (λ g. should_skip fleet unique_name g e w ≡ (ok false, w)) (map scanned gs)
  unfolding should_skip
  never_skips [] e w = tt
  never_skips (g ∷ gs) e w = (ground arith, never_skips gs e w)

  -- The backoff never holds back a group that the worker has listed: the queries read no
  -- failures, so that the count of failures starts at 0 in every tick.
  pub list_all_groups-should_skip :
      (e later : Env) (w w' : World (Tables O)) (gs : List ScalingGroup)
      → (list_all_groups e w).0 ≡ ok gs
      → All (λ g. should_skip fleet unique_name g later w' ≡ (ok false, w')) gs
  unfolding list_all_groups
  list_all_groups-should_skip e later w w' gs done =
      let same : map scanned w.tables.groups ≡ gs = ground arith in
      subst (All (λ g. should_skip fleet unique_name g later w' ≡ (ok false, w'))) same
        (never_skips w.tables.groups later w')
