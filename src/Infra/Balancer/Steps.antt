-- ===== src/Infra/Balancer/Steps.antt =====
-- The queries of lb_repo.go follow the life cycle of load balancers.
use thecloud.Prelude.{
  ℕ, true, some, [], ◌∷◌, ◌++◌, modify, has_key, find?-modify, find?-append, find?-keep-Keyed,
  find?-true, ◌==◌, not, ◌≡◌, ◌≢◌, refl, subst, ◌⊎◌, arith, inl, inr, Bool-cases, Option-cases,
}
use thecloud.Infra.Types.{LoadBalancer, LbStatus, Tables}
use thecloud.Infra.Balancer.Repo.{
  is_balancer, is_balancer_version, set_balancer_columns, without_balancer,
}
use thecloud.Infra.Balancer.Life.{Life, Step, Reach, vanish, next, lb_key, row_with, life, IsKeyed}

-- The tables have a key, and the life of a load balancer has gone on from where it was.
pub record Follows {O : Type 0} (id : ℕ) (from : Life) (t : Tables O) : Type 0 where
  pub keyed : IsKeyed t
  pub reached : Reach from (life id t)

-- Nothing happened to the load balancer, or one step.
abbrev pub Moves : Life → Life → Type 0
Moves a b = (a ≡ b) ⊎ Step a b

pub Follows-move :
    {O : Type 0} (id : ℕ) (from : Life) (t t' : Tables O)
    → Follows id from t
    → IsKeyed t'
    → Moves (life id t) (life id t')
    → Follows id from t'
Follows-move id from t t' f k (inl same) = record {
  keyed = k;
  reached = subst (Reach from) same f.reached;
}
Follows-move id from t t' f k (inr step) = record { keyed = k; reached = next f.reached step }

module _ {O : Type 0} (id : ℕ) where
  -- An update whose new status is allowed for the row that it finds.
  pub update-Moves :
      (lb : LoadBalancer) (t : Tables O)
      → ((x : LoadBalancer)
          → row_with lb.id t ≡ some x
          → is_balancer_version lb x ≡ true
          → Moves (some x.status) (some lb.status))
      → Moves (life id t) (
          life id (record t {
            balancers = modify (is_balancer_version lb) (set_balancer_columns lb) t.balancers;
          }))
  update-Moves lb t allowed =
      let q = is_balancer_version lb in
      let same =
        find?-modify (has_key lb_key id) q (set_balancer_columns lb) t.balancers (λ x. refl) in
      elim (Option-cases (row_with id t)) [
        | inl missing ↦ rw (same, missing) (inl refl)
        | inr (x, found) ↦ elim (Bool-cases (q x)) [
          | inr other ↦ rw (same, found, other) (inl refl)
          | inl hit ↦
              let e : lb.id ≡ id =
                ground (arith, find?-true (has_key lb_key id) t.balancers x found) in
              rw (same, found, hit) (allowed x (rw e found) hit)
        ]
      ]

  pub create-Moves :
      (lb : LoadBalancer) (t : Tables O)
      → lb.id ≢ id
      → Moves (life id t) (life id (record t { balancers = t.balancers ++ lb ∷ [] }))
  create-Moves lb t apart =
      let same = find?-append (has_key lb_key id) t.balancers (lb ∷ []) in
      elim (Option-cases (row_with id t)) [
        | inr (x, found) ↦ rw (same, found) (inl refl)
        | inl missing ↦ elim (Bool-cases (lb.id == id)) [
          | inr other ↦ rw (same, missing, other) (inl refl)
          | inl hit ↦ absurd (apart (ground (arith, hit)))
        ]
      ]

  pub delete-Moves :
      (lb user : ℕ) (t : Tables O)
      → IsKeyed t
      → ((x : LoadBalancer) → row_with lb t ≡ some x → x.status ≡ LbStatus.dropped)
      → Moves (life id t) (life id (without_balancer lb user t))
  delete-Moves lb user t k marked =
      let same = find?-keep-Keyed lb_key id (λ x. not (is_balancer lb user x)) t.balancers k in
      elim (Option-cases (row_with id t)) [
        | inl missing ↦ rw (same, missing) (inl refl)
        | inr (x, found) ↦ elim (Bool-cases (is_balancer lb user x)) [
          | inr other ↦ rw (same, found, other) (inl refl)
          | inl hit ↦
              let e : lb ≡ id =
                ground (arith, find?-true (has_key lb_key id) t.balancers x found) in
              rw (same, found, hit) (inr (vanish (ground (arith, marked x (rw e found))) refl))
        ]
      ]
