-- ===== src/Infra/Balancer/Requests.antt =====
-- The requests of loadbalancer.go and the rounds of lb_worker.go follow the life cycle of load
-- balancers, whatever fails.
use thecloud.Prelude.{
  ℕ, ◌≢◌, false, some, [], ◌∷◌, Text, any, any-or_false, has_key, Keyed-modify, Keyed-snoc, text_eq,
  ◌≡◌, refl, arith, inl, inr, Bool-cases,
}
use thecloud.Prelude.Int.{ℤ}
use thecloud.Errors.{wrap, not_found}
use thecloud.Action.{
  Result, Env, Action, map_error, call, Keeps, Triple-pure, Keeps-bind, Keeps-write,
  Keeps-map_error, Keeps-attempt, Keeps-ask, Keeps-raise_if, Keeps-new_id, new_id, bump, ◌>>=◌,
  ◌>>◌, ask, note, pure, Keeps-note, Keeps-result,
}
use thecloud.Infra.Types.{LoadBalancer, LbStatus, LbTarget, Tables, Backend, from_driver}
use thecloud.Infra.Balancer.Repo.{
  refuses_balancer, is_balancer_version, set_balancer_columns, create_balancer_row, update_balancer,
  add_target_row, remove_target_row, refuses_target, is_target,
}
use thecloud.Infra.Balancer.Reads.{
  get_balancer_by_id-Keeps, get_balancer_by_key-Keeps, get_vpc_by_id-Keeps,
  get_instance_by_id-Keeps,
}
use thecloud.Infra.Compute.Launch.{outside}
use thecloud.Infra.Balancer.Service.{
  new_balancer, new_target, create_fresh, create_balancer, delete_balancer, add_target,
  remove_target,
}
use thecloud.Infra.Balancer.Life.{Life, Step, drop, lb_key, Undrawn}
use thecloud.Infra.Balancer.Steps.{Follows, Follows-move, update-Moves, create-Moves}

new_key :
    {O : Type 0} (lb : LoadBalancer) (t : Tables O)
    → refuses_balancer lb t ≡ false
    → any (has_key lb_key lb.id) t.balancers ≡ false
new_key lb t fine =
    (any-or_false (has_key lb_key lb.id) (λ x. text_eq x.idempotency_key lb.idempotency_key)
      t.balancers (ground (arith, fine))).0

module _ {O : Type 0} (b : Backend O) (e : Env) (id : ℕ) (from : Life) where
  abbrev Sound : {A : Type 0} → Action (Tables O) A → Type 0
  Sound {A} m = Keeps {S = Tables O} {A = A} e (Follows id from) m

  create_balancer_row-Sound : (lb : LoadBalancer) → lb.id ≢ id → Sound (create_balancer_row lb)
  unfolding create_balancer_row
  create_balancer_row-Sound lb apart = Keeps-map_error from_driver _ (
      Keeps-write _ (λ t f. elim (Bool-cases (refuses_balancer lb t)) [
        | inl bad ↦ rw bad f
        | inr fine ↦ rw fine (
            Follows-move id from t _ f
              (Keyed-snoc lb_key t.balancers lb f.keyed (new_key lb t fine))
              (create-Moves id lb t apart))
      ]))

  -- An update whose status may follow that of the row.
  update_balancer-Sound :
      (lb : LoadBalancer)
      → ((x : LoadBalancer) → Step (some x.status) (some lb.status))
      → Sound (update_balancer lb)
  unfolding update_balancer
  update_balancer-Sound lb allowed = Keeps-map_error from_driver _ (
      Keeps-write _ (λ t f. elim (Bool-cases (any (is_balancer_version lb) t.balancers)) [
        | inr stale ↦ rw stale f
        | inl there ↦ rw there (
            Follows-move id from t _ f
              (Keyed-modify lb_key (is_balancer_version lb) (set_balancer_columns lb) t.balancers
                (λ x. refl) f.keyed)
              (update-Moves id lb t (λ x found hit. inr (allowed x))))
      ]))

  -- A write of the targets.
  targets-Sound :
      {A : Type 0} (f : Tables O → Result A × Tables O)
      → ((t : Tables O) → (f t).1.balancers ≡ t.balancers)
      → Sound (map_error from_driver (call f))
  targets-Sound f same = Keeps-map_error from_driver _ (
      Keeps-write _
        (λ t h. record { keyed = rw (same t) h.keyed; reached = rw (same t) h.reached }))

  add_target_row-Sound : (x : LbTarget) → Sound (add_target_row x)
  unfolding add_target_row
  add_target_row-Sound x = targets-Sound _ (λ t. elim (Bool-cases (refuses_target x t)) [
    | inl bad ↦ rw bad refl
    | inr fine ↦ rw fine refl
  ])

  remove_target_row-Sound : (lb inst : ℕ) → Sound (remove_target_row lb inst)
  unfolding remove_target_row
  remove_target_row-Sound lb inst = targets-Sound _ (λ t.
      elim (Bool-cases (any (is_target lb inst) t.targets)) [
        | inl there ↦ rw there refl
        | inr missing ↦ rw missing refl
      ])

  outside-Sound : {A : Type 0} (m : Action O A) → Sound (outside m)
  outside-Sound m = record { at = λ w f. record { keyed = f.keyed; reached = f.reached } }

  -- What goes on with an identifier that was drawn.
  drawn-Sound :
      {A : Type 0} (f : ℕ → Action (Tables O) A)
      → ((n : ℕ) → Sound (f (e.fresh n)))
      → Sound (new_id >>= f)
  drawn-Sound f k = record { at = λ w h. (k w.tick).at (bump w) h }

  -- What a creation does with it.
  abbrev stored : Text → Text → Text → ℕ → ℤ → ℕ → Action (Tables O) LoadBalancer
  stored name key algorithm vpc port lb = do
    user ← ask (λ e. e.user)
    create_balancer_row (new_balancer lb user key name vpc port algorithm)
    note "lb.create" user lb
    pure (new_balancer lb user key name vpc port algorithm)

  create_fresh-Sound :
      (name key algorithm : Text) (vpc : ℕ) (port : ℤ)
      → Undrawn id e
      → Sound (create_fresh b name vpc port algorithm key)
  unfolding create_fresh
  create_fresh-Sound name key algorithm vpc port apart =
      Keeps-bind _ _ (Keeps-map_error (wrap not_found) _ (get_vpc_by_id-Keeps b e _ vpc)) (λ v.
        drawn-Sound (stored name key algorithm vpc port) (λ n.
          Keeps-bind _ _ (Keeps-ask (λ e. e.user)) (λ user.
            let lb = new_balancer (e.fresh n) user key name vpc port algorithm in
            Keeps-bind _ _ (create_balancer_row-Sound lb (apart n)) (λ d.
              Keeps-bind _ _ (Keeps-note "lb.create" user lb.id)
                (λ d. Triple-pure lb (λ s f. f))))))

  pub create_balancer-Sound :
      (name key algorithm : Text) (vpc : ℕ) (port : ℤ)
      → Undrawn id e
      → Sound (create_balancer b name vpc port algorithm key)
  unfolding create_balancer
  create_balancer-Sound name [] algorithm vpc port apart = record {
    at = (create_fresh-Sound name [] algorithm vpc port apart).at;
  }
  create_balancer-Sound name (x ∷ key) algorithm vpc port apart =
      Keeps-bind _ _ (Keeps-attempt _ (get_balancer_by_key-Keeps e _ (x ∷ key))) (λ r.
        Keeps-result r _ _ (λ lb. Triple-pure lb (λ s f. f))
          (λ missing. create_fresh-Sound name (x ∷ key) algorithm vpc port apart))

  pub delete_balancer-Sound : (lb : ℕ) → Sound (delete_balancer b lb)
  unfolding delete_balancer
  delete_balancer-Sound lb = Keeps-bind _ _ (get_balancer_by_id-Keeps e _ lb) (λ x.
      Keeps-bind _ _
        (update_balancer-Sound (record x { status = LbStatus.dropped })
          (λ y. drop y.status refl refl))
        (λ d. Keeps-note _ _ _))

  pub add_target-Sound : (lb inst : ℕ) (port weight : ℤ) → Sound (add_target b lb inst port weight)
  unfolding add_target
  add_target-Sound lb inst port weight = Keeps-bind _ _ (get_balancer_by_id-Keeps e _ lb) (λ x.
      Keeps-bind _ _ (Keeps-map_error (wrap not_found) _ (get_instance_by_id-Keeps b e _ inst))
        (λ i. Keeps-bind _ _ (Keeps-raise_if _ _) (λ d. Keeps-bind _ _ Keeps-new_id (λ id'.
          Keeps-bind _ _ (add_target_row-Sound (new_target id' lb inst port weight))
            (λ d. Keeps-note "lb.target_add" x.user_id x.id)))))

  pub remove_target-Sound : (lb inst : ℕ) → Sound (remove_target b lb inst)
  unfolding remove_target
  remove_target-Sound lb inst =
      Keeps-bind _ _ (get_balancer_by_id-Keeps e _ lb)
        (λ x. Keeps-bind _ _ (remove_target_row-Sound lb inst) (λ d. Keeps-note _ _ _))
