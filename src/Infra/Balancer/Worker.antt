-- ===== src/Infra/Balancer/Worker.antt =====
-- internal/core/services/lb_worker.go.
use thecloud.Prelude.{
  ℕ, Bool, true, false, List, [], ◌∷◌, ◌++◌, Text, text, text_eq, insert, ◌==◌, if◌then◌else◌,
}
use thecloud.Prelude.Int.{ℤ, eq_ℤ}
use thecloud.Action.{ok, err, Action, Done, pure, attempt, ignore, with_user, ◌>>=◌, ◌>>◌}
use thecloud.Infra.Types.{LoadBalancer, LbStatus, LbTarget, Health, Instance, Tables, Backend}
use thecloud.Infra.Compute.Repo.{get_instance_by_id}
use thecloud.Infra.Balancer.Repo.{
  list_all_balancers, list_target_rows, update_balancer, delete_balancer_row, update_target_health,
}
use thecloud.Infra.Compute.Launch.{outside}

abbrev pub is_pending : LbStatus → Bool
is_pending LbStatus.pending = true
is_pending LbStatus.active = false
is_pending LbStatus.draining = false
is_pending LbStatus.dropped = false

abbrev pub is_active : LbStatus → Bool
is_active LbStatus.active = true
is_active LbStatus.pending = false
is_active LbStatus.draining = false
is_active LbStatus.dropped = false

abbrev pub is_dropped : LbStatus → Bool
is_dropped LbStatus.dropped = true
is_dropped LbStatus.pending = false
is_dropped LbStatus.active = false
is_dropped LbStatus.draining = false

abbrev pub same_health : Health → Health → Bool
same_health Health.unknown Health.unknown = true
same_health Health.unknown Health.healthy = false
same_health Health.unknown Health.unhealthy = false
same_health Health.healthy Health.unknown = false
same_health Health.healthy Health.healthy = true
same_health Health.healthy Health.unhealthy = false
same_health Health.unhealthy Health.unknown = false
same_health Health.unhealthy Health.healthy = false
same_health Health.unhealthy Health.unhealthy = true

-- The loop of `splitCommas` and `splitColons`, for a text of ASCII characters: what was read of the
-- current piece, and the rest. A last piece that is empty is dropped.
unfoldable pub pieces : ℕ → Text → Text → List Text
pieces sep [] [] = []
pieces sep (x ∷ current) [] = (x ∷ current) ∷ []
pieces sep current (c ∷ s) = elim (c == sep) [
  | true ↦ current ∷ pieces sep [] s
  | false ↦ pieces sep (current ++ c ∷ []) s
]

module _ {O : Type 0} (b : Backend O) where
  -- The loop of `parsePorts`, with the map that was filled so far.
  unfoldable pub parse_pairs : List Text → List (Text × ℤ) → List (Text × ℤ)
  parse_pairs [] known = known
  parse_pairs (p ∷ ps) known = parse_pairs ps (elim (pieces b':' [] p) [
    | [] ↦ known
    | h ∷ others ↦ elim others [
      | [] ↦ known
      | c ∷ more ↦ elim more [ [] ↦ insert (b.scan_word h) (b.scan_int c) known | d ∷ ds ↦ known ]
    ]
  ])

  -- `parsePorts`.
  unfoldable pub parse_ports : Text → List (Text × ℤ)
  parse_ports ports = parse_pairs (pieces b',' [] ports) []

  -- The host port of the first mapping to a container port, in the order of the walk.
  unfoldable pub host_port : ℤ → List (Text × ℤ) → Text
  host_port port [] = []
  host_port port ((h, c) ∷ m) = if eq_ℤ c port then h else host_port port m

  -- The status that the check of one target finds.
  unfoldable pub probe : LbTarget → Instance → Action (Tables O) Health
  probe x inst =
      let host = host_port x.port (b.map_order (parse_ports inst.ports)) in
      if text_eq host [] then pure Health.unhealthy else (do
        r ← attempt (outside (b.dial (text "localhost:" ++ host)))
        elim r [ ok d ↦ pure Health.healthy | err e ↦ pure Health.unhealthy ])

  -- One round of the loop in `checkLBHealth`.
  unfoldable pub check_target : LoadBalancer → LbTarget → Action (Tables O) Done
  check_target lb x = do
    found ← attempt (get_instance_by_id b x.instance_id)
    elim found [
      | err e ↦ pure tt
      | ok inst ↦ do
        status ← probe x inst
        if same_health x.health status
            then pure tt
            else ignore (update_target_health lb.id x.instance_id status)
    ]

  unfoldable pub check_targets : LoadBalancer → List LbTarget → Action (Tables O) Done
  check_targets lb [] = pure tt
  check_targets lb (x ∷ xs) = do check_target lb x; check_targets lb xs

  -- `checkLBHealth`.
  unfoldable pub check_lb_health : LoadBalancer → Action (Tables O) Done
  check_lb_health lb = do
    found ← attempt (list_target_rows lb.id)
    elim found [ err e ↦ pure tt | ok targets ↦ check_targets lb targets ]

  -- `deployLB`.
  unfoldable pub deploy_lb : LoadBalancer → Action (Tables O) Done
  deploy_lb lb = do
    found ← attempt (list_target_rows lb.id)
    elim found [
      | err e ↦ pure tt
      | ok targets ↦ do
        deployed ← attempt (outside (b.deploy_proxy lb targets))
        elim deployed [
          | err e ↦ pure tt
          | ok d ↦ ignore (update_balancer (record lb { status = LbStatus.active }))
        ]
    ]

  -- `cleanupLB`: the row goes even if the proxy does not.
  unfoldable pub cleanup_lb : LoadBalancer → Action (Tables O) Done
  cleanup_lb lb = do ignore (outside (b.remove_proxy lb.id)); ignore (delete_balancer_row lb.id)

  -- The body of `processActiveLBs`.
  unfoldable pub refresh_lb : LoadBalancer → Action (Tables O) Done
  refresh_lb lb = do
    found ← attempt (list_target_rows lb.id)
    elim found [
      | err e ↦ pure tt
      | ok targets ↦ ignore (outside (b.update_proxy_config lb targets))
    ]

  -- The loop that the four passes share: what is done with each load balancer of one status, as its
  -- owner.
  unfoldable pub each_lb :
      (LbStatus → Bool)
      → (LoadBalancer → Action (Tables O) Done)
      → List LoadBalancer
      → Action (Tables O) Done
  each_lb test body [] = pure tt
  each_lb test body (lb ∷ lbs) = do
    (if test lb.status then with_user lb.user_id (body lb) else pure tt)
    each_lb test body lbs

  -- A pass reads the load balancers anew, and ends at a failure to.
  unfoldable pub pass :
      (LbStatus → Bool) → (LoadBalancer → Action (Tables O) Done) → Action (Tables O) Done
  pass test body = do
    found ← attempt list_all_balancers
    elim found [ err e ↦ pure tt | ok lbs ↦ each_lb test body lbs ]

  -- `processCreatingLBs`, `processDeletingLBs`, `processActiveLBs` and `processHealthChecks`.
  unfoldable pub process_creating_lbs : Action (Tables O) Done
  process_creating_lbs = pass is_pending deploy_lb

  unfoldable pub process_deleting_lbs : Action (Tables O) Done
  process_deleting_lbs = pass is_dropped cleanup_lb

  unfoldable pub process_active_lbs : Action (Tables O) Done
  process_active_lbs = pass is_active refresh_lb

  unfoldable pub process_health_checks : Action (Tables O) Done
  process_health_checks = pass is_active check_lb_health

  -- One tick of `Run`.
  unfoldable pub tick_lbs : Action (Tables O) Done
  tick_lbs = do
    process_creating_lbs
    process_deleting_lbs
    process_active_lbs
    process_health_checks
