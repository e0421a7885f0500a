-- ===== src/Infra/Balancer/Health.antt =====
-- The health checks of lb_worker.go follow the life cycle of load balancers.
use thecloud.Prelude.{ℕ, true, List, [], ◌∷◌, text, ◌++◌, text_eq, ◌≡◌}
use thecloud.Action.{
  Env, Keeps, Leads, Leads-result, Triple-pure, Triple-if, Keeps-map_error, Keeps-write, Keeps-bind,
  Keeps-attempt, Keeps-ignore, Keeps-result,
}
use thecloud.Infra.Types.{LoadBalancer, LbTarget, Health, Instance, Backend, from_driver}
use thecloud.Infra.Balancer.Repo.{update_target_health}
use thecloud.Infra.Balancer.Reads.{list_target_rows-Keeps, get_instance_by_id-Keeps}
use thecloud.Infra.Balancer.Worker.{
  host_port, parse_ports, is_active, same_health, probe, check_target, check_targets,
  check_lb_health,
}
use thecloud.Infra.Balancer.Life.{Life}
use thecloud.Infra.Balancer.Passes.{Waiting, outside-Keeps, rest-Leads, done-Leads, then-Leads}

module _ {O : Type 0} (b : Backend O) (e : Env) (id : ℕ) (from : Life) where
  probe-Keeps :
      (lbs : List LoadBalancer) (x : LbTarget) (inst : Instance)
      → Keeps e (Waiting b e id from lbs) (probe b x inst)
  unfolding probe
  probe-Keeps lbs x inst =
      let host = host_port b x.port (b.map_order (parse_ports b inst.ports)) in
      Triple-if (text_eq host []) _ _ (λ none_mapped. Triple-pure Health.unhealthy (λ t p. p))
        (λ mapped.
          Keeps-bind _ _
            (Keeps-attempt _ (outside-Keeps b e id from lbs (b.dial (text "localhost:" ++ host))))
            (λ r.
              Keeps-result r _ _ (λ d. Triple-pure Health.healthy (λ t p. p))
                (λ y. Triple-pure Health.unhealthy (λ t p. p))))

  update_target_health-Keeps :
      (lbs : List LoadBalancer) (lb inst : ℕ) (found : Health)
      → Keeps e (Waiting b e id from lbs) (update_target_health lb inst found)
  unfolding update_target_health
  update_target_health-Keeps lbs lb inst found = Keeps-map_error from_driver _ (
      Keeps-write _ (λ t p. (
        record { keyed = p.0.keyed; reached = p.0.reached },
        record { distinct = p.1.distinct; stored = p.1.stored },
      )))

  -- The health checks write the targets only.
  check_target-Keeps :
      (lbs : List LoadBalancer) (lb : LoadBalancer) (x : LbTarget)
      → Keeps e (Waiting b e id from lbs) (check_target b lb x)
  unfolding check_target
  check_target-Keeps lbs lb x =
      Keeps-bind _ _ (Keeps-attempt _ (get_instance_by_id-Keeps b e _ x.instance_id)) (λ r.
        Keeps-result r _ _
          (λ inst. Keeps-bind _ _ (probe-Keeps lbs x inst) (λ status.
            Triple-if (same_health x.health status) _ _ (λ same. Triple-pure tt (λ t p. p))
              (λ other.
                Keeps-ignore _ (update_target_health-Keeps lbs lb.id x.instance_id status))))
          (λ y. Triple-pure tt (λ t p. p)))

  check_targets-Keeps :
      (lbs : List LoadBalancer) (lb : LoadBalancer) (xs : List LbTarget)
      → Keeps e (Waiting b e id from lbs) (check_targets b lb xs)
  unfolding check_targets
  check_targets-Keeps lbs lb [] = Triple-pure tt (λ t p. p)
  check_targets-Keeps lbs lb (x ∷ xs) =
      Keeps-bind _ _ (check_target-Keeps lbs lb x) (λ d. check_targets-Keeps lbs lb xs)

  pub check_lb_health-Leads :
      (x : LoadBalancer) (lbs : List LoadBalancer)
      → is_active x.status ≡ true
      → Leads e (Waiting b e id from (x ∷ lbs)) (Waiting b e id from lbs) (check_lb_health b x)
  unfolding check_lb_health
  check_lb_health-Leads x lbs on =
      then-Leads b e id from x lbs _ _ (Keeps-attempt _ (list_target_rows-Keeps e _ x.id)) (λ r.
        Leads-result r _ _
          (λ targets. rest-Leads b e id from x lbs _ (check_targets-Keeps (x ∷ lbs) x targets))
          (λ y. done-Leads b e id from x lbs))
