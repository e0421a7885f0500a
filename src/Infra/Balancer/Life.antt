-- ===== src/Infra/Balancer/Life.antt =====
-- The life cycle of a load balancer, apart from the tables: what internal/core/domain/loadbalancer.go
-- names as states, and the requests and rounds of loadbalancer.go and lb_worker.go that move it.
use thecloud.Prelude.{ℕ, Option, none, some, List, [], ◌∷◌, Text, find?, has_key, Keyed, ◌≡◌, ◌≢◌}
use thecloud.Prelude.Int.{ℤ}
use thecloud.Action.{World, Env, Action, Done, pure, ◌>>◌}
use thecloud.Infra.Types.{LoadBalancer, LbStatus, Tables, Backend}
use thecloud.Infra.Balancer.Service.{create_balancer, delete_balancer, add_target, remove_target}
use thecloud.Infra.Balancer.Worker.{tick_lbs}

-- No load balancer, or one of a status.
abbrev pub Life : Type 0
Life = Option LbStatus

-- The steps of a load balancer once its row is there: only a pending one becomes active, any is
-- marked as dropped, only a dropped one goes away, and none comes back.
pub data Step (a b : Life) : Type 0 where
  activate : a ≡ some LbStatus.pending → b ≡ some LbStatus.active → Step a b
  drop : (s : LbStatus) → a ≡ some s → b ≡ some LbStatus.dropped → Step a b
  vanish : a ≡ some LbStatus.dropped → b ≡ none → Step a b

pub data Reach (a : Life) : Life → Type 0 where
  here : Reach a a
  next : {b c : Life} → Reach a b → Step b c → Reach a c

-- No request draws this identifier for a row of its own.
abbrev pub Undrawn : ℕ → Env → Type 0
Undrawn id e = (n : ℕ) → e.fresh n ≢ id

-- The identifier is the key of `load_balancers`.
abbrev pub lb_key : LoadBalancer → ℕ
lb_key lb = lb.id

abbrev pub row_with : {O : Type 0} → ℕ → Tables O → Option LoadBalancer
row_with id t = find? (has_key lb_key id) t.balancers

abbrev pub status_of : Option LoadBalancer → Life
status_of none = none
status_of (some lb) = some lb.status

-- The life of the load balancer with an identifier.
abbrev pub life : {O : Type 0} → ℕ → Tables O → Life
life id t = status_of (row_with id t)

abbrev pub IsKeyed : {O : Type 0} → Tables O → Type 0
IsKeyed t = Keyed lb_key t.balancers

-- What moves load balancers: the requests of the service and the rounds of the worker.
pub data Request : Type 0 where
  create : Text → ℕ → ℤ → Text → Text → Request
  delete : ℕ → Request
  add : ℕ → ℕ → ℤ → ℤ → Request
  remove : ℕ → ℕ → Request
  tick : Request

module _ {O : Type 0} (b : Backend O) where
  unfoldable pub run : Request → Action (Tables O) Done
  run (create name vpc port algorithm key) = do
    create_balancer b name vpc port algorithm key
    pure tt
  run (delete id) = delete_balancer b id
  run (add lb inst port weight) = add_target b lb inst port weight
  run (remove lb inst) = remove_target b lb inst
  run tick = tick_lbs b

  -- A history: who asks what, while which calls fail.
  unfoldable pub run_all : List (Env × Request) → World (Tables O) → World (Tables O)
  run_all [] w = w
  run_all ((e, r) ∷ rest) w = run_all rest (run r e w).1
