-- ===== src/Infra/Balancer/Round.antt =====
-- A round of lb_worker.go follows the life cycle of load balancers, whatever fails.
use thecloud.Prelude.{ℕ, Bool, true, List, [], ◌∷◌, find?-self, ◌≡◌}
use thecloud.Action.{
  Result, ok, err, Env, Action, Done, pure, Triple, Keeps, Leads, Triple-pure, Triple-bind,
  Triple-with_user, Triple-attempt_bind, Triple-map_error, Triple-call, Triple-if, Keeps-bind,
}
use thecloud.Infra.Types.{LoadBalancer, LbStatus, Tables, Backend, from_driver}
use thecloud.Infra.Balancer.Repo.{list_all_balancers}
use thecloud.Infra.Balancer.Worker.{
  is_pending, is_dropped, is_active, each_lb, pass, process_creating_lbs, process_deleting_lbs,
  process_active_lbs, process_health_checks, tick_lbs,
}
use thecloud.Infra.Balancer.Life.{Life, lb_key}
use thecloud.Infra.Balancer.Steps.{Follows}
use thecloud.Infra.Balancer.Passes.{
  Waiting, done-Leads, deploy_lb-Leads, cleanup_lb-Leads, refresh_lb-Leads,
}
use thecloud.Infra.Balancer.Health.{check_lb_health-Leads}

module _ {O : Type 0} (b : Backend O) (id : ℕ) (from : Life) where
  -- What a pass does with a load balancer of its status, as any user.
  abbrev Passes : (LbStatus → Bool) → (LoadBalancer → Action (Tables O) Done) → Type 0
  Passes test body =
      (e : Env) (x : LoadBalancer) (lbs : List LoadBalancer)
      → test x.status ≡ true
      → Leads e (Waiting b e id from (x ∷ lbs)) (Waiting b e id from lbs) (body x)

  each_lb-Leads :
      (test : LbStatus → Bool) (body : LoadBalancer → Action (Tables O) Done)
      → Passes test body
      → (e : Env) (lbs : List LoadBalancer)
      → Leads e (Waiting b e id from lbs) (Follows id from) (each_lb b test body lbs)
  unfolding each_lb
  each_lb-Leads test body step e [] = Triple-pure tt (λ t p. p.0)
  each_lb-Leads test body step e (x ∷ lbs) =
      Triple-bind (λ r t. Waiting b e id from lbs t) _ _
        (Triple-if (test x.status) _ _
          (λ on.
            Triple-with_user x.user_id (body x) (step (record e { user = x.user_id }) x lbs on))
          (λ off. done-Leads b e id from x lbs))
        (λ y t p. p.0) (λ d. each_lb-Leads test body step e lbs)

  -- What a pass knows after it has read the load balancers.
  abbrev Seen : Env → Result (List LoadBalancer) → Tables O → Type 0
  Seen e (ok lbs) t = Waiting b e id from lbs t
  Seen e (err x) t = Follows id from t

  list_all_balancers-Seen : (e : Env) → Triple e (Follows id from) list_all_balancers (Seen e)
  unfolding list_all_balancers
  list_all_balancers-Seen e =
      Triple-map_error (Seen e) from_driver _
        (Triple-call _ (λ t p. p)
          (λ t p.
            (p, record { distinct = p.keyed; stored = find?-self lb_key t.balancers p.keyed })))
        (λ lbs t p. p) (λ x t p. p)

  pass-Keeps :
      (test : LbStatus → Bool) (body : LoadBalancer → Action (Tables O) Done)
      → Passes test body
      → (e : Env) → Keeps e (Follows id from) (pass b test body)
  unfolding pass
  pass-Keeps test body step e =
      Triple-attempt_bind (Seen e) list_all_balancers _ (list_all_balancers-Seen e) (λ r. go r)
    where
      go :
          (r : Result (List LoadBalancer))
          → Leads e
              (Seen e r)
              (Follows id from)
              (elim r [ err x ↦ pure tt | ok lbs ↦ each_lb b test body lbs ])
      go (ok lbs) = each_lb-Leads test body step e lbs
      go (err x) = Triple-pure tt (λ t p. p)

  pub tick_lbs-Keeps : (e : Env) → Keeps e (Follows id from) (tick_lbs b)
  unfolding tick_lbs process_creating_lbs process_deleting_lbs process_active_lbs
      process_health_checks
  tick_lbs-Keeps e =
      Keeps-bind _ _ (pass-Keeps is_pending _ (λ e. deploy_lb-Leads b e id from) e) (λ d.
        Keeps-bind _ _ (pass-Keeps is_dropped _ (λ e. cleanup_lb-Leads b e id from) e) (λ d.
          Keeps-bind _ _ (pass-Keeps is_active _ (λ e. refresh_lb-Leads b e id from) e)
            (λ d. pass-Keeps is_active _ (λ e. check_lb_health-Leads b e id from) e)))
