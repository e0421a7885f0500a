-- ===== src/Infra/Balancer/Refines.antt =====
-- Histories of requests and rounds follow the life cycle of load balancers: what that says of a load
-- balancer that was deleted while the worker deploys it.
use thecloud.Prelude.{
  false, some, find?, find?-true, find?-modify, has_key, any, ◌==◌, ◌≡◌, refl, arith, inl, inr,
  Bool-cases, find?-key, Option-cases,
}
use thecloud.Action.{
  ok, World, Env, Action, Keeps, Keeps-bind, Keeps-attempt, Keeps-result, Keeps-ignore,
  Keeps-map_error, Keeps-write, Triple-pure,
}
use thecloud.Infra.Types.{LoadBalancer, LbStatus, Tables, Backend, from_driver}
use thecloud.Infra.Balancer.Repo.{
  is_balancer, is_balancer_version, set_balancer_columns, get_balancer_by_id, update_balancer,
}
use thecloud.Infra.Compute.Launch.{outside}
use thecloud.Infra.Balancer.Reads.{list_target_rows-Keeps}
use thecloud.Infra.Balancer.Service.{delete_balancer}
use thecloud.Infra.Balancer.Worker.{deploy_lb}
use thecloud.Infra.Balancer.Life.{Life, life, lb_key, row_with, IsKeyed}

module _ {O : Type 0} (b : Backend O) where
  outside-row :
      {A : Type 0} (e : Env) (lb x : LoadBalancer) (m : Action O A)
      → Keeps e (λ (t : Tables O). row_with lb.id t ≡ some x) (outside m)
  outside-row e lb x m = record { at = λ w p. p }

  update_balancer-stale :
      (e : Env) (lb x : LoadBalancer)
      → (x.version == lb.version) ≡ false
      → Keeps {S = Tables O} e (λ t. row_with lb.id t ≡ some x) (update_balancer lb)
  unfolding update_balancer
  update_balancer-stale e lb x old = Keeps-map_error from_driver _ (
      Keeps-write _ (λ t p. elim (Bool-cases (any (is_balancer_version lb) t.balancers)) [
        | inr stale ↦ rw stale p
        | inl there ↦ rw there (
            ground (
              arith,
              find?-modify (has_key lb_key lb.id) (is_balancer_version lb) (set_balancer_columns lb)
                  t.balancers (λ y. refl),
            ))
      ]))

  -- A deployment with an old version leaves the row as it is.
  deploy_lb-stale :
      (e : Env) (lb x : LoadBalancer)
      → (x.version == lb.version) ≡ false
      → Keeps e (λ t. row_with lb.id t ≡ some x) (deploy_lb b lb)
  unfolding deploy_lb
  deploy_lb-stale e lb x old =
      Keeps-bind _ _ (Keeps-attempt _ (list_target_rows-Keeps e _ lb.id)) (λ r.
        Keeps-result r _ _
          (λ targets.
            Keeps-bind _ _ (Keeps-attempt _ (outside-row e lb x (b.deploy_proxy lb targets))) (λ r.
              Keeps-result r _ _
                (λ d.
                  Keeps-ignore _
                    (update_balancer-stale e (record lb { status = LbStatus.active }) x old))
                (λ y. Triple-pure tt (λ t p. p))))
          (λ y. Triple-pure tt (λ t p. p)))

  -- What a successful deletion leaves.
  delete_balancer-marks :
      (e : Env) (w : World (Tables O)) (lb : LoadBalancer)
      → IsKeyed w.tables
      → row_with lb.id w.tables ≡ some lb
      → (delete_balancer b lb.id e w).0 ≡ ok tt
      → row_with lb.id (delete_balancer b lb.id e w).1.tables
        ≡ some (set_balancer_columns (record lb { status = LbStatus.dropped }) lb)
  unfolding delete_balancer get_balancer_by_id update_balancer
  delete_balancer-marks e w lb k stored done =
      elim (Option-cases (find? (is_balancer lb.id e.user) w.tables.balancers)) [
        | inl foreign ↦ ground arith
        | inr (own, found) ↦
            let gone = record own { status = LbStatus.dropped } in
            ground (
              arith,
              find?-key lb_key (is_balancer lb.id e.user) w.tables.balancers own k found,
              find?-true (is_balancer lb.id e.user) w.tables.balancers own found,
              find?-modify (has_key lb_key lb.id) (is_balancer_version gone)
                  (set_balancer_columns gone) w.tables.balancers (λ y. refl),
            )
      ]

-- A deletion is not lost: if a load balancer is deleted while the worker holds it as it was read
-- before, the deployment that the worker then makes leaves it marked as dropped.
pub delete_balancer-survives :
    {O : Type 0} (b : Backend O) (e worker : Env) (w : World (Tables O)) (lb : LoadBalancer)
    → IsKeyed w.tables
    → row_with lb.id w.tables ≡ some lb
    → (delete_balancer b lb.id e w).0 ≡ ok tt
    → (let w' = (delete_balancer b lb.id e w).1 in
        (life lb.id w'.tables ≡ some LbStatus.dropped)
        × (life lb.id (deploy_lb b lb worker w').1.tables ≡ some LbStatus.dropped))
delete_balancer-survives b e worker w lb k stored done =
    let marked = delete_balancer-marks b e w lb k stored done in
    let later =
      (deploy_lb-stale b worker lb
          (set_balancer_columns (record lb { status = LbStatus.dropped }) lb) (ground arith)).at
        (delete_balancer b lb.id e w).1 marked in
    (rw marked refl, rw later refl)
