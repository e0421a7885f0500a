-- ===== src/Infra/Balancer/Passes.antt =====
-- What the passes of lb_worker.go that deploy, clean up and refresh do with one load balancer.
use thecloud.Prelude.{
  ℕ, true, false, some, List, [], ◌∷◌, All, any, modify, has_key, Keyed, Keyed-modify, Keyed-keep,
  find?-modify, find?-keep-Keyed, not, ◌≡◌, refl, arith, inl, inr, Bool-cases,
}
use thecloud.Action.{
  Env, Action, pure, Keeps, Leads, Leads-map_error, Leads-ignore, Leads-write, Leads-result,
  Triple-pure, Triple-bind, Triple-weaken, ◌>>=◌, Keeps-attempt, Keeps-ignore,
}
use thecloud.Infra.Types.{LoadBalancer, LbStatus, Tables, Backend, from_driver}
use thecloud.Infra.Balancer.Repo.{
  is_balancer, is_balancer_version, set_balancer_columns, without_balancer, update_balancer,
  delete_balancer_row,
}
use thecloud.Infra.Compute.Launch.{outside}
use thecloud.Infra.Balancer.Reads.{list_target_rows-Keeps}
use thecloud.Infra.Balancer.Worker.{
  is_pending, is_dropped, is_active, deploy_lb, cleanup_lb, refresh_lb,
}
use thecloud.Infra.Balancer.Life.{Life, activate, lb_key, row_with}
use thecloud.Infra.Balancer.Steps.{Follows, Follows-move, update-Moves, delete-Moves}

-- The load balancers of a list have different identifiers and are stored as they are.
pub record Listed {O : Type 0} (lbs : List LoadBalancer) (t : Tables O) : Type 0 where
  pub distinct : Keyed lb_key lbs
  pub stored : All (λ lb. row_with lb.id t ≡ some lb) lbs

-- A change that keeps the rows of other load balancers.
stored-modify :
    {O : Type 0} (lb : LoadBalancer) (lbs : List LoadBalancer) (t : Tables O) (x : LoadBalancer)
    → lb.id ≡ x.id
    → any (has_key lb_key x.id) lbs ≡ false
    → All (λ y. row_with y.id t ≡ some y) lbs
    → All
        (λ y.
          row_with y.id (record t {
            balancers = modify (is_balancer_version lb) (set_balancer_columns lb) t.balancers;
          })
          ≡ some y)
        lbs
stored-modify lb [] t x e other all = tt
stored-modify lb (y ∷ ys) t x e other all = (
  ground (
    arith,
    all.0,
    find?-modify (has_key lb_key y.id) (is_balancer_version lb) (set_balancer_columns lb)
        t.balancers (λ x. refl),
  ),
  stored-modify lb ys t x e (ground arith) all.1,
)

stored-without :
    {O : Type 0} (user : ℕ) (lbs : List LoadBalancer) (t : Tables O) (x : LoadBalancer)
    → Keyed lb_key t.balancers
    → any (has_key lb_key x.id) lbs ≡ false
    → All (λ y. row_with y.id t ≡ some y) lbs
    → All (λ y. row_with y.id (without_balancer x.id user t) ≡ some y) lbs
stored-without user [] t x k other all = tt
stored-without user (y ∷ ys) t x k other all = (
  ground (
    arith,
    all.0,
    find?-keep-Keyed lb_key y.id (λ z. not (is_balancer x.id user z)) t.balancers k,
  ),
  stored-without user ys t x k (ground arith) all.1,
)

module _ {O : Type 0} (b : Backend O) (e : Env) (id : ℕ) (from : Life) where
  -- Where a pass stands: these load balancers are still to be looked at.
  abbrev pub Waiting : List LoadBalancer → Tables O → Type 0
  Waiting lbs t = Follows id from t × Listed lbs t

  pub outside-Keeps :
      {A : Type 0} (lbs : List LoadBalancer) (m : Action O A) → Keeps e (Waiting lbs) (outside m)
  outside-Keeps lbs m = record {
    at = λ w p. (
      record { keyed = p.0.keyed; reached = p.0.reached },
      record { distinct = p.1.distinct; stored = p.1.stored },
    );
  }

  next_one :
      (x : LoadBalancer) (lbs : List LoadBalancer) (t : Tables O)
      → Waiting (x ∷ lbs) t
      → Waiting lbs t
  next_one x lbs t p = (p.0, record { distinct = p.1.distinct.1; stored = p.1.stored.1 })

  update_balancer-Leads :
      (x : LoadBalancer) (lbs : List LoadBalancer)
      → is_pending x.status ≡ true
      → Leads e
          (Waiting (x ∷ lbs))
          (Waiting lbs)
          (update_balancer (record x { status = LbStatus.active }))
  unfolding update_balancer
  update_balancer-Leads x lbs ready =
      let lb : LoadBalancer = record x { status = LbStatus.active } in
      Leads-map_error from_driver _ (
        Leads-write _ (λ t p. next_one x lbs t p)
          (λ t p. elim (Bool-cases (any (is_balancer_version lb) t.balancers)) [
            | inr stale ↦ rw stale (next_one x lbs t p)
            | inl there ↦ rw there (
              Follows-move id from t _ p.0
                  (Keyed-modify lb_key (is_balancer_version lb) (set_balancer_columns lb)
                    t.balancers (λ y. refl) p.0.keyed)
                  (update-Moves id lb t
                    (λ y found hit. inr (activate (ground (arith, p.1.stored.0)) refl))),
              record {
                distinct = p.1.distinct.1;
                stored = stored-modify lb lbs t x refl p.1.distinct.0 p.1.stored.1;
              },
            )
          ]))

  delete_balancer_row-Leads :
      (x : LoadBalancer) (lbs : List LoadBalancer)
      → is_dropped x.status ≡ true
      → Leads e (Waiting (x ∷ lbs)) (Waiting lbs) (delete_balancer_row x.id)
  unfolding delete_balancer_row
  delete_balancer_row-Leads x lbs marked = record {
    at =
        (Leads-map_error {e = e} from_driver _ (
          Leads-write {e = e} _ (λ t p. next_one x lbs t p)
            (λ t p. elim (Bool-cases (any (is_balancer x.id e.user) t.balancers)) [
              | inr missing ↦ rw missing (next_one x lbs t p)
              | inl there ↦ rw there (
                Follows-move id from t _ p.0
                    (Keyed-keep lb_key (λ y. not (is_balancer x.id e.user y)) t.balancers p.0.keyed)
                    (delete-Moves id x.id e.user t p.0.keyed
                      (λ y found. ground (arith, p.1.stored.0))),
                record {
                  distinct = p.1.distinct.1;
                  stored = stored-without e.user lbs t x p.0.keyed p.1.distinct.0 p.1.stored.1;
                },
              )
            ]))).at;
  }

  pub rest-Leads :
      {A : Type 0} (x : LoadBalancer) (lbs : List LoadBalancer) (m : Action (Tables O) A)
      → Keeps e (Waiting (x ∷ lbs)) m
      → Leads e (Waiting (x ∷ lbs)) (Waiting lbs) m
  rest-Leads x lbs m k = Triple-weaken m k (λ t p. p) (λ r t p. next_one x lbs t p)

  pub done-Leads :
      (x : LoadBalancer) (lbs : List LoadBalancer)
      → Leads {S = Tables O} e (Waiting (x ∷ lbs)) (Waiting lbs) (pure tt)
  done-Leads x lbs = Triple-pure tt (λ t p. next_one x lbs t p)

  -- A step that keeps all, and then one that goes on to the next load balancer.
  pub then-Leads :
      {A B : Type 0} (x : LoadBalancer) (lbs : List LoadBalancer) (m : Action (Tables O) A)
      (f : A → Action (Tables O) B)
      → Keeps e (Waiting (x ∷ lbs)) m
      → ((a : A) → Leads e (Waiting (x ∷ lbs)) (Waiting lbs) (f a))
      → Leads e (Waiting (x ∷ lbs)) (Waiting lbs) (m >>= f)
  then-Leads x lbs m f k l =
      Triple-bind (λ r t. Waiting (x ∷ lbs) t) m f k (λ y t p. next_one x lbs t p) l

  pub deploy_lb-Leads :
      (x : LoadBalancer) (lbs : List LoadBalancer)
      → is_pending x.status ≡ true
      → Leads e (Waiting (x ∷ lbs)) (Waiting lbs) (deploy_lb b x)
  unfolding deploy_lb
  deploy_lb-Leads x lbs ready =
      then-Leads x lbs _ _ (Keeps-attempt _ (list_target_rows-Keeps e _ x.id)) (λ r.
        Leads-result r _ _
          (λ targets.
            then-Leads x lbs _ _
              (Keeps-attempt _ (outside-Keeps (x ∷ lbs) (b.deploy_proxy x targets)))
              (λ r.
                Leads-result r _ _ (λ d. Leads-ignore _ (update_balancer-Leads x lbs ready))
                  (λ y. done-Leads x lbs)))
          (λ y. done-Leads x lbs))

  pub cleanup_lb-Leads :
      (x : LoadBalancer) (lbs : List LoadBalancer)
      → is_dropped x.status ≡ true
      → Leads e (Waiting (x ∷ lbs)) (Waiting lbs) (cleanup_lb b x)
  unfolding cleanup_lb
  cleanup_lb-Leads x lbs marked =
      then-Leads x lbs _ _ (Keeps-ignore _ (outside-Keeps (x ∷ lbs) (b.remove_proxy x.id)))
        (λ d. Leads-ignore _ (delete_balancer_row-Leads x lbs marked))

  pub refresh_lb-Leads :
      (x : LoadBalancer) (lbs : List LoadBalancer)
      → is_active x.status ≡ true
      → Leads e (Waiting (x ∷ lbs)) (Waiting lbs) (refresh_lb b x)
  unfolding refresh_lb
  refresh_lb-Leads x lbs on =
      then-Leads x lbs _ _ (Keeps-attempt _ (list_target_rows-Keeps e _ x.id)) (λ r.
        Leads-result r _ _
          (λ targets.
            rest-Leads x lbs _
              (Keeps-ignore _ (outside-Keeps (x ∷ lbs) (b.update_proxy_config x targets))))
          (λ y. done-Leads x lbs))
