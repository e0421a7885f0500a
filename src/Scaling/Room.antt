-- ===== src/Scaling/Room.antt =====
-- How the steps of internal/core/services/autoscaling_worker.go change the number of instances of a
-- group, whatever fails.

use thecloud.Prelude.{
  ℕ, String, zero, suc, ◌+◌, ◌≤◌, Option, none, some, List, [], ◌∷◌, ◌++◌, Text, length, keep, any,
  not, ltb, ◌≡◌, refl, inl, inr, arith, Bool-cases,
}
use thecloud.Action.{
  Result, ok, err, Env, Action, pure, ask, note, ◌>>=◌, Triple, Keeps, Leads, Triple-pure,
  Triple-bind, Triple-call, Triple-attempt_bind, Triple-if, Leads-result, Keeps-result, Keeps-bind,
  Keeps-attempt, Keeps-ask, Keeps-ignore, Keeps-now, Keeps-note, Keeps-write, Leads-write,
}
use thecloud.Ports.{to_dynamic_ports}
use thecloud.Scaling.Types.{ScalingGroup, Link, Tables, Fleet}
use thecloud.Scaling.Repo.{
  is_link, is_version, refuses_change, refuses_link, instances_of, update_group,
  add_instance_to_group, remove_instance_from_group,
}
use thecloud.Scaling.Reconcile.{
  outside, or_same, save, join_balancer, leave_balancer, scale_out, scale_in, record_failure,
  reset_failures, scale_out_all, scale_in_all,
}

-- The group has at most so many instances.
abbrev pub Room : {O : Type 0} → ℕ → ℕ → Tables O → Type 0
Room id n t = length (instances_of id t.links) ≤ n

-- What a change of its other columns leaves of a group.
abbrev pub Numbers : ScalingGroup → ScalingGroup → Type 0
Numbers g h = (h.desired_count ≡ g.desired_count) × (h.max_instances ≡ g.max_instances)

abbrev pub OnGroup : (ScalingGroup → Type 0) → Result ScalingGroup → Type 0
OnGroup P (ok g) = P g
OnGroup P (err x) = Unit

one_more :
    (id : ℕ) (l : Link) (ls : List Link)
    → length (instances_of id (ls ++ l ∷ [])) ≤ suc (length (instances_of id ls))
one_more id l [] = ground arith
one_more id l (k ∷ ls) = let ih = one_more id l ls in ground arith

no_more :
    (id group inst : ℕ) (ls : List Link)
    → length (instances_of id (keep (λ l. not (is_link group inst l)) ls))
      ≤ length (instances_of id ls)
no_more id group inst [] = ground arith
no_more id group inst (k ∷ ls) = let ih = no_more id group inst ls in ground arith

module _ {O : Type 0} (fleet : Fleet O) (unique_name : Text → ℕ → Text) (e : Env) (id : ℕ) where
  abbrev Same : {A : Type 0} → ℕ → Action (Tables O) A → Type 0
  Same {A} n m = Keeps {S = Tables O} {A = A} e (Room id n) m

  pub pure-Same : {A : Type 0} (n : ℕ) (a : A) → Same n (pure a)
  pure-Same n a = Triple-pure a (λ t p. p)

  outside-Same : {A : Type 0} (n : ℕ) (m : Action O A) → Same n (outside m)
  outside-Same n m = record { at = λ w p. p }

  -- The group of the worker keeps its numbers, and a failed update changes nothing.
  pub save-Triple :
      (n : ℕ) (g : ScalingGroup)
      → Triple {S = Tables O} e
          (Room id n)
          (save fleet unique_name g)
          (λ r t. Room id n t × OnGroup (λ h. Numbers g h) r)
  unfolding save update_group
  save-Triple n g =
      Triple-attempt_bind (λ r t. Room id n t × Numbers g (or_same g r)) (update_group g) _
        (Triple-call _ (λ t p. (p, (refl, refl)))
          (λ t p. elim (Bool-cases (not (any (is_version g) t.groups))) [
            | inl stale ↦ rw stale (p, (refl, refl))
            | inr there ↦ elim (Bool-cases (refuses_change g t)) [
              | inl bad ↦ rw (there, bad) (p, (refl, refl))
              | inr fine ↦ rw (there, fine) (p, (refl, refl))
            ]
          ]))
        (λ r. Triple-pure (or_same g r) (λ t p. p))

  save-Same : (n : ℕ) (g : ScalingGroup) → Same n (save fleet unique_name g)
  save-Same n g = record { at = λ w p. ((save-Triple n g).at w p).0 }

  join_balancer-Same :
      (n : ℕ) (lb : Option ℕ) (inst : ℕ) → Same n (join_balancer fleet unique_name lb inst)
  unfolding join_balancer
  join_balancer-Same n none inst = Triple-pure tt (λ t p. p)
  join_balancer-Same n (some lb) inst = Keeps-ignore _ (outside-Same n (fleet.add_target lb inst))

  leave_balancer-Same :
      (n : ℕ) (lb : Option ℕ) (inst : ℕ) → Same n (leave_balancer fleet unique_name lb inst)
  unfolding leave_balancer
  leave_balancer-Same n none inst = Triple-pure tt (λ t p. p)
  leave_balancer-Same n (some lb) inst =
      Keeps-ignore _ (outside-Same n (fleet.remove_target lb inst))

  noted-Same :
      (n : ℕ) (label : String) (group : ℕ)
      → Same n (do user ← ask (λ e. e.user); note label user group)
  noted-Same n label group = Keeps-bind _ _ (Keeps-ask _) (λ user. Keeps-note label user group)

  -- A link more is one instance more at most.
  add_instance_to_group-Leads :
      (n group inst : ℕ)
      → Leads {S = Tables O} e (Room id n) (Room id (suc n)) (add_instance_to_group group inst)
  unfolding add_instance_to_group
  add_instance_to_group-Leads n group inst =
      Leads-write _ (λ t p. omega (arith, p))
        (λ t p. elim (Bool-cases (refuses_link group inst t)) [
          | inl bad ↦ rw bad (omega (arith, p))
          | inr fine ↦ rw fine (omega (arith, p, one_more id (group, inst) t.links))
        ])

  scale_out-Leads :
      (n : ℕ) (g : ScalingGroup)
      → Leads {S = Tables O} e (Room id n) (Room id (suc n)) (scale_out fleet unique_name g)
  unfolding scale_out
  scale_out-Leads n g =
      Triple-bind (λ r t. Room id n t) _ _ Keeps-now (λ x t p. omega (arith, p))
        (λ time.
          Triple-bind (λ r t. Room id n t) _ _
            (outside-Same n
              (fleet.launch (unique_name g.name time) g.image (to_dynamic_ports g.ports) g.vpc_id))
            (λ x t p. omega (arith, p))
            (λ inst.
              Triple-bind (λ r t. Room id (suc n) t) _ _ (add_instance_to_group-Leads n g.id inst)
                (λ x t p. p)
                (λ d.
                  Keeps-bind _ _ (join_balancer-Same (suc n) g.load_balancer_id inst)
                    (λ d. noted-Same (suc n) "AUTOSCALING_SCALE_OUT" g.id))))

  remove_instance_from_group-Same :
      (n group inst : ℕ) → Same n (remove_instance_from_group group inst)
  unfolding remove_instance_from_group
  remove_instance_from_group-Same n group inst =
      Keeps-write _ (λ t p. omega (arith, p, no_more id group inst t.links))

  scale_in-Same : (n : ℕ) (g : ScalingGroup) (inst : ℕ) → Same n (scale_in fleet unique_name g inst)
  unfolding scale_in
  scale_in-Same n g inst = Keeps-bind _ _ (leave_balancer-Same n g.load_balancer_id inst) (λ d.
      Keeps-bind _ _ (remove_instance_from_group-Same n g.id inst) (λ d.
        Keeps-bind _ _ (Keeps-ignore _ (outside-Same n (fleet.terminate inst)))
          (λ d. noted-Same n "AUTOSCALING_SCALE_IN" g.id)))

  record_failure-Same : (n : ℕ) (g : ScalingGroup) → Same n (record_failure fleet unique_name g)
  unfolding record_failure
  record_failure-Same n g = Keeps-bind _ _ Keeps-now (λ time.
      save-Same n (record g { failure_count = g.failure_count + 1; last_failure_at = some time }))

  reset_failures-Same : (n : ℕ) (g : ScalingGroup) → Same n (reset_failures fleet unique_name g)
  unfolding reset_failures
  reset_failures-Same n g =
      Triple-if (ltb 0 g.failure_count) _ _
        (λ b. save-Same n (record g { failure_count = 0; last_failure_at = none }))
        (λ b. Triple-pure g (λ t p. p))

  wider :
      {A : Type 0} (n a b : ℕ) (m : Action (Tables O) A)
      → a ≤ b
      → Leads {S = Tables O} e (Room id n) (Room id a) m
      → Leads {S = Tables O} e (Room id n) (Room id b) m
  wider n a b m le t = record { at = λ w p. let q = t.at w p in omega (arith, q, le) }

  pub scale_out_all-Leads :
      (k n : ℕ) (g : ScalingGroup)
      → Leads {S = Tables O} e (Room id n) (Room id (k + n)) (scale_out_all fleet unique_name k g)
  unfolding scale_out_all
  scale_out_all-Leads zero n g = Triple-pure g (λ t p. omega (arith, p))
  scale_out_all-Leads (suc k) n g =
      Triple-attempt_bind (λ r t. Room id (suc n) t) _ _ (scale_out-Leads n g)
        (λ r.
          Leads-result r _ _
            (λ d.
              Triple-bind {Q = λ r t. Room id (suc k + n) t} (λ r t. Room id (suc n) t) _ _
                (reset_failures-Same (suc n) g) (λ x t p. omega (arith, p))
                (λ g'.
                  wider (suc n) (k + suc n) (suc k + n) _ (omega arith)
                    (scale_out_all-Leads k (suc n) g')))
            (λ x.
              wider (suc n) (suc n) (suc k + n) _ (omega arith) (record_failure-Same (suc n) g)))

  pub scale_in_all-Same :
      (n : ℕ) (is : List ℕ) (g : ScalingGroup) → Same n (scale_in_all fleet unique_name is g)
  unfolding scale_in_all
  scale_in_all-Same n [] g = Triple-pure tt (λ t p. p)
  scale_in_all-Same n (i ∷ is) g =
      Keeps-bind _ _ (Keeps-attempt _ (scale_in-Same n g i))
        (λ r. Keeps-result r _ _ (λ d. scale_in_all-Same n is g) (λ x. Triple-pure tt (λ t p. p)))
