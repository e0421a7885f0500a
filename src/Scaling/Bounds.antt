-- ===== src/Scaling/Bounds.antt =====
-- How many instances a group has after `reconcileInstances` of
-- internal/core/services/autoscaling_worker.go, whatever fails.
use mathlib.Core.List.{reverse}
use thecloud.Prelude.{
  ℕ, ◌+◌, ◌-◌, ◌≤◌, ◌<◌, false, List, Text, take, length, ltb, ◌≡◌, ◌⊎◌, refl, ◌∙◌, if◌then◌else◌,
  inl, inr, arith,
}
use thecloud.Action.{
  Result, ok, err, World, Env, Action, pure, ◌>>◌, Triple, Keeps, Leads, Triple-pure, Triple-bind,
  Triple-if, Keeps-option, Keeps-bind, Keeps-now,
}
use thecloud.Scaling.Types.{ScalingGroup, Tables, Fleet, max_failure_count, failure_backoff}
use thecloud.Scaling.Repo.{instances_of}
use thecloud.Scaling.Reconcile.{
  scale_in_all, clamp_desired, should_skip, scale_out_unless, reconcile_instances,
}
use thecloud.Scaling.Room.{
  Room, Numbers, OnGroup, pure-Same, save-Triple, scale_out_all-Leads, scale_in_all-Same,
}

module _ {O : Type 0} (fleet : Fleet O) (unique_name : Text → ℕ → Text) (e : Env) (id : ℕ) where
  abbrev Same : {A : Type 0} → ℕ → Action (Tables O) A → Type 0
  Same {A} n m = Keeps {S = Tables O} {A = A} e (Room id n) m

  should_skip-Same : (n : ℕ) (g : ScalingGroup) → Same n (should_skip fleet unique_name g)
  unfolding should_skip
  should_skip-Same n g =
      Triple-if (ltb g.failure_count max_failure_count) _ _
        (λ b. pure-Same fleet unique_name e id n false)
        (λ b.
          Keeps-option g.last_failure_at _ _ (pure-Same fleet unique_name e id n false) (λ failed.
            Keeps-bind _ _ Keeps-now
              (λ time. Triple-pure (ltb time (failed + failure_backoff)) (λ t p. p))))

  -- What is left of the group after the two tests is within its maximum.
  abbrev Capped : ℕ → ℕ → Result ScalingGroup → Tables O → Type 0
  Capped most n r t = Room id n t × OnGroup (λ h. h.desired_count ≤ most) r

  kept :
      (g h : ScalingGroup) (r : Result ScalingGroup)
      → h.max_instances ≡ g.max_instances
      → OnGroup (λ j. Numbers h j) r
      → OnGroup (λ j. j.max_instances ≡ g.max_instances) r
  kept g h (ok j) same n = n.1 ∙ same
  kept g h (err x) same n = tt

  capped :
      (g h : ScalingGroup) (r : Result ScalingGroup)
      → h.max_instances ≡ g.max_instances
      → OnGroup (λ j. Numbers (record h { desired_count = h.max_instances }) j) r
      → OnGroup (λ j. j.desired_count ≤ g.max_instances) r
  capped g h (ok j) same n = omega (arith, same, n.0)
  capped g h (err x) same n = tt

  clamp_desired-Capped :
      (n : ℕ) (g : ScalingGroup)
      → Triple {S = Tables O} e
          (Room id n)
          (clamp_desired fleet unique_name g)
          (Capped g.max_instances n)
  unfolding clamp_desired
  clamp_desired-Capped n g =
      Triple-bind (λ r t. Room id n t × OnGroup (λ h. h.max_instances ≡ g.max_instances) r) _ _
        (Triple-if (ltb g.desired_count g.min_instances) _ _
          (λ low. record {
            at = λ w p.
                let r =
                  (save-Triple fleet unique_name e id n
                      (record g { desired_count = g.min_instances })).at
                    w p in
                (r.0, kept g (record g { desired_count = g.min_instances }) _ refl r.1);
          })
          (λ high. Triple-pure g (λ t p. (p, refl))))
        (λ x t p. (p.0, tt))
        (λ g1.
          Triple-if (ltb g1.max_instances g1.desired_count) _ _
            (λ above. record {
              at = λ w p.
                  let r =
                    (save-Triple fleet unique_name e id n
                        (record g1 { desired_count = g1.max_instances })).at
                      w p.0 in
                  (r.0, capped g g1 _ p.1 r.1);
            })
            (λ below. Triple-pure g1 (λ t p. (p.0, ground (arith, p.1)))))

  -- From so many instances, or to what the group may have.
  scaled-Leads :
      (most : ℕ) (is : List ℕ) (g : ScalingGroup)
      → Leads {S = Tables O} e
          (λ t. Room id (length is) t × (g.desired_count ≤ most))
          (λ t. Room id most t ⊎ Room id (length is) t)
          (if ltb (length is) g.desired_count
            then scale_out_unless fleet unique_name (g.desired_count - length is) g
            else if ltb g.desired_count (length is)
            then (do
              scale_in_all fleet unique_name (take (length is - g.desired_count) (reverse is)) g
              pure g)
            else pure g)
  unfolding scale_out_unless
  scaled-Leads most is g =
      Triple-if (ltb (length is) g.desired_count) _ _
        (λ more. record {
          at = λ w p.
              let grown =
                (Triple-bind {P = Room id (length is)}
                    {Q = λ r t. Room id ((g.desired_count - length is) + length is) t}
                    (λ r t. Room id (length is) t) _ _ (should_skip-Same (length is) g)
                    (λ x t p. omega (arith, p))
                    (λ skip.
                      Triple-if skip _ _ (λ b. Triple-pure g (λ t p. omega (arith, p)))
                        (λ b.
                          scale_out_all-Leads fleet unique_name e id (g.desired_count - length is)
                            (length is) g))).at
                  w p.0 in
              let bound : length is < g.desired_count = ground arith in
              inl (omega (arith, grown, bound, p.1));
        })
        (λ enough.
          Triple-if (ltb g.desired_count (length is)) _ _
            (λ less.
              Triple-bind (λ r t. Room id (length is) t) _ _
                (record {
                  at = λ w p.
                      (scale_in_all-Same fleet unique_name e id (length is)
                          (take (length is - g.desired_count) (reverse is)) g).at
                        w p.0;
                })
                (λ x t p. inr p) (λ d. Triple-pure g (λ t p. inr p)))
            (λ same. Triple-pure g (λ t p. inr p.0)))

  reconcile_instances-Leads :
      (g : ScalingGroup) (is : List ℕ)
      → Leads {S = Tables O} e
          (Room id (length is))
          (λ t. Room id g.max_instances t ⊎ Room id (length is) t)
          (reconcile_instances fleet unique_name g is)
  unfolding reconcile_instances
  reconcile_instances-Leads g is =
      Triple-bind (Capped g.max_instances (length is)) _ _ (clamp_desired-Capped (length is) g)
        (λ x t p. inr p.0) (λ h. scaled-Leads g.max_instances is h)

-- Whatever the group's desired count is, whatever the services outside answer and whatever calls
-- fail, after `reconcileInstances` with the instances of the group it has at most its maximum of
-- instances, or no more than before.
pub reconcile_instances-bounds :
    {O : Type 0} (fleet : Fleet O) (unique_name : Text → ℕ → Text) (e : Env) (w : World (Tables O))
    (g : ScalingGroup)
    → (let before = instances_of g.id w.tables.links in
        let after =
          instances_of g.id (reconcile_instances fleet unique_name g before e w).1.tables.links in
        (length after ≤ g.max_instances) ⊎ (length after ≤ length before))
reconcile_instances-bounds fleet unique_name e w g =
    let before = instances_of g.id w.tables.links in
    (reconcile_instances-Leads fleet unique_name e g.id g before).at w (omega arith)
