-- ===== src/Infra/Balancer/Reads.antt =====
-- Queries that only read keep what holds of the tables.
use thecloud.Prelude.{ℕ, Text, [], ◌∷◌}
use thecloud.Action.{Env, Keeps, Keeps-read, Keeps-map_error}
use thecloud.Infra.Types.{Tables, Backend, from_driver}
use thecloud.Infra.Network.Repo.{get_vpc_by_id}
use thecloud.Infra.Compute.Repo.{get_instance_by_id}
use thecloud.Infra.Balancer.Repo.{get_balancer_by_id, get_balancer_by_key, list_target_rows}

module _ {O : Type 0} (e : Env) (P : Tables O → Type 0) where
  pub get_balancer_by_id-Keeps : (id : ℕ) → Keeps e P (get_balancer_by_id id)
  unfolding get_balancer_by_id
  get_balancer_by_id-Keeps id = record {
    at = (Keeps-map_error {e = e} from_driver _ (Keeps-read _)).at;
  }

  pub get_balancer_by_key-Keeps : (key : Text) → Keeps e P (get_balancer_by_key key)
  unfolding get_balancer_by_key
  get_balancer_by_key-Keeps [] = record { at = λ w p. p }
  get_balancer_by_key-Keeps (x ∷ key) = record {
    at = (Keeps-map_error {e = e} from_driver _ (Keeps-read _)).at;
  }

  pub list_target_rows-Keeps : (lb : ℕ) → Keeps e P (list_target_rows lb)
  unfolding list_target_rows
  list_target_rows-Keeps lb = Keeps-map_error from_driver _ (Keeps-read _)

module _ {O : Type 0} (b : Backend O) (e : Env) (P : Tables O → Type 0) where
  pub get_vpc_by_id-Keeps : (id : ℕ) → Keeps e P (get_vpc_by_id b id)
  unfolding get_vpc_by_id
  get_vpc_by_id-Keeps id = record { at = (Keeps-map_error {e = e} from_driver _ (Keeps-read _)).at }

  pub get_instance_by_id-Keeps : (id : ℕ) → Keeps e P (get_instance_by_id b id)
  unfolding get_instance_by_id
  get_instance_by_id-Keeps id = record {
    at = (Keeps-map_error {e = e} from_driver _ (Keeps-read _)).at;
  }
