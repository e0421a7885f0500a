-- ===== src/Infra/Balancer/Create.antt =====
-- What creating a load balancer and adding a target promise, and where a load balancer without an
-- idempotency key gets in the way of the next one.
use thecloud.Prelude.{
  ℕ, Bool, true, false, List, [], ◌∷◌, Text, text_eq, text_eq_sound, any, any-append, ◌==◌, ◌||◌,
  ◌≡◌, refl, ◌∙◌, arith, inl, inr, Bool-cases,
}
use thecloud.Prelude.Int.{ℤ}
use thecloud.Errors.{wrap, not_found}
use thecloud.Action.{
  ok, is_ok, World, note, Env, Triple, Triple-bind, Triple-call, Triple-pure, Triple-map_error,
  Keeps-map_error, Keeps-new_id, Keeps-ask, Keeps-note,
}
use thecloud.Infra.Types.{LoadBalancer, Tables, Backend, from_driver}
use thecloud.Infra.Balancer.Repo.{create_balancer_row, refuses_balancer}
use thecloud.Infra.Balancer.Reads.{get_vpc_by_id-Keeps}
use thecloud.Infra.Balancer.Service.{create_fresh, create_balancer, new_balancer}

abbrev pub is_keyless : LoadBalancer → Bool
is_keyless x = text_eq x.idempotency_key []

-- A new row without a key, and then a row without a key that is there.
any-or_left :
    (p q : LoadBalancer → Bool) (xs : List LoadBalancer)
    → any q xs ≡ true
    → any (λ x. p x || q x) xs ≡ true
any-or_left p q [] h = cc
any-or_left p q (x ∷ xs) h = ground (arith, any-or_left p q xs)

keyless-refused :
    {O : Type 0} (lb : LoadBalancer) (t : Tables O)
    → is_keyless lb ≡ true
    → any is_keyless t.balancers ≡ true
    → refuses_balancer lb t ≡ true
keyless-refused lb t bare there =
    let e : lb.idempotency_key ≡ [] = text_eq_sound lb.idempotency_key [] bare in
    let hit : any
          (λ (x : LoadBalancer). x.id == lb.id || text_eq x.idempotency_key lb.idempotency_key)
          t.balancers
        ≡ true =
      rw e (any-or_left (λ x. x.id == lb.id) is_keyless t.balancers there) in
    ground (arith, hit)

module _ {O : Type 0} (b : Backend O) (e : Env) where
  -- `create_fresh` by what it says of the one query that writes.
  create_fresh-by :
      (P : Tables O → Type 0) (Q : Bool → Tables O → Type 0) (name key algorithm : Text) (vpc : ℕ)
      (port : ℤ)
      → ((t : Tables O) → P t → Q false t)
      → ((lb : LoadBalancer)
          → lb.idempotency_key ≡ key
          → Triple e P (create_balancer_row lb) (λ r t. Q (is_ok r) t))
      → Triple e P (create_fresh b name vpc port algorithm key) (λ r t. Q (is_ok r) t)
  unfolding create_fresh
  create_fresh-by P Q name key algorithm vpc port lost row =
      Triple-bind (λ r t. P t) _ _
        (Keeps-map_error (wrap not_found) _ (get_vpc_by_id-Keeps b e P vpc)) (λ x. lost)
        (λ v.
          Triple-bind (λ r t. P t) _ _ Keeps-new_id (λ x. lost)
            (λ id.
              Triple-bind (λ r t. P t) _ _ (Keeps-ask (λ e. e.user)) (λ x. lost)
                (λ user.
                  let lb = new_balancer id user key name vpc port algorithm in
                  Triple-bind (λ r t. Q (is_ok r) t) _ _ (row lb refl) (λ x t q. q)
                    (λ d.
                      Triple-bind (λ r t. Q (is_ok r) t) _ _ (noted id user) (λ x t q. q)
                        (λ d. Triple-pure lb (λ t q. q))))))
    where
      noted :
          (id user : ℕ)
          → Triple {S = Tables O} e
              (λ t. Q true t)
              (note "lb.create" user id)
              (λ r t. Q (is_ok r) t)
      noted id user = record {
        at = (Keeps-note {e = e} {P = λ t. Q true t} "lb.create" user id).at;
      }

  -- A load balancer without a key is there once one was created.
  create_row-keyless :
      (lb : LoadBalancer)
      → lb.idempotency_key ≡ []
      → Triple {S = Tables O} e
          (λ t. Unit {0})
          (create_balancer_row lb)
          (λ r t. is_ok r ≡ true → any is_keyless t.balancers ≡ true)
  unfolding create_balancer_row
  create_row-keyless lb bare =
      Triple-map_error (λ r t. is_ok r ≡ true → any is_keyless t.balancers ≡ true) from_driver _
        (Triple-call _ (λ t p h. cc)
          (λ t p. elim (Bool-cases (refuses_balancer lb t)) [
            | inl bad ↦ rw bad (λ h. cc)
            | inr fine ↦
                rw fine (λ h. any-append is_keyless t.balancers (lb ∷ []) ∙ ground (arith, bare))
          ]))
        (λ d t q h. q refl) (λ x t q h. cc)

  -- And then none without a key is accepted.
  create_row-refused :
      (bs : List LoadBalancer) (lb : LoadBalancer)
      → any is_keyless bs ≡ true
      → lb.idempotency_key ≡ []
      → Triple {S = Tables O} e
          (λ t. t.balancers ≡ bs)
          (create_balancer_row lb)
          (λ r t. (is_ok r ≡ false) × (t.balancers ≡ bs))
  unfolding create_balancer_row
  create_row-refused bs lb there bare =
      Triple-map_error (λ r t. (is_ok r ≡ false) × (t.balancers ≡ bs)) from_driver _
        (Triple-call _ (λ t p. (refl, p))
          (λ t p. rw (keyless-refused lb t (ground (arith, bare)) (rw p there)) (refl, p)))
        (λ d t q. cc q.0) (λ x t q. (refl, q.1))

-- A creation without an idempotency key leaves a load balancer without one in the table, and in every
-- state that has one, a creation without a key fails, whoever asks and whatever calls fail, and stores
-- nothing.
pub create_balancer-keyless :
    {O : Type 0} (b : Backend O) (e later : Env) (w v : World (Tables O))
    (name name' algorithm algorithm' : Text) (vpc vpc' : ℕ) (port port' : ℤ) {lb : LoadBalancer}
    → (create_balancer b name vpc port algorithm [] e w).0 ≡ ok lb
    → any is_keyless v.tables.balancers ≡ true
    → (let w' = (create_balancer b name vpc port algorithm [] e w).1 in
        let o = create_balancer b name' vpc' port' algorithm' [] later v in
        (any is_keyless w'.tables.balancers ≡ true)
        × (is_ok o.0 ≡ false)
        × (o.1.tables.balancers ≡ v.tables.balancers))
unfolding create_balancer
create_balancer-keyless b e later w v name name' algorithm algorithm' vpc vpc' port port' done
      there =
    let left : any is_keyless (create_balancer b name vpc port algorithm [] e w).1.tables.balancers
        ≡ true =
      (create_fresh-by b e (λ t. Unit {0}) (λ r t. r ≡ true → any is_keyless t.balancers ≡ true)
          name [] algorithm vpc port (λ t p h. cc) (λ lb bare. create_row-keyless b e lb bare)).at
        w tt (rw done refl) in
    let refused =
      (create_fresh-by b later (λ t. t.balancers ≡ v.tables.balancers)
          (λ r t. (r ≡ false) × (t.balancers ≡ v.tables.balancers)) name' [] algorithm' vpc' port'
          (λ t p. (refl, p))
          (λ lb bare. create_row-refused b later v.tables.balancers lb there bare)).at
        v refl in
    (left, refused.0, refused.1)
