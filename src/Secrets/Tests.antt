-- ===== src/Secrets/Tests.antt =====
-- A cipher that stores the value behind a nonce of two bytes, and a user who stores one secret.
use thecloud.Prelude.{ℕ, true, some, [], ◌∷◌, text, ◌≡◌, refl, false, arith}
use thecloud.Action.{ok, is_ok, World, Env}
use thecloud.Secrets.Types.{Secret, Tables, Primitives, IsSound}
use thecloud.Secrets.Crypto.{encrypt}
use thecloud.Secrets.Repo.{create_secret_row}
use thecloud.Secrets.Service.{new_secret, create_secret, get_secret, get_secret_by_name}
use thecloud.Secrets.Access.{get_secret-create_secret}

abbrev toy : Primitives
toy = record {
  hkdf = λ master salt. some salt;
  is_key = λ key. true;
  nonce_size = 2;
  seal = λ key nonce t. t;
  unseal = λ key nonce t. some t;
  encode = λ t. t;
  decode = λ t. some t;
  random = λ n. 9 ∷ n ∷ [];
  bytes = λ user. user ∷ [];
  master_key = text "master";
}

toy-IsSound : IsSound toy
toy-IsSound = record {
  decode_encode = λ t. refl;
  unseal_seal = λ key nonce t. refl;
  random_size = λ n. refl;
  hkdf_key = λ salt key h. refl;
}

abbrev as_user : ℕ → Env
as_user user = record { fails = λ n. false; clock = λ n. 1000; fresh = λ n. 20; user = user }

abbrev start : World Tables
start = record { tables = []; journal = []; tick = 0 }

abbrev stored : Secret
stored = new_secret 20 7 (text "db") (9 ∷ 20 ∷ text "pw") []

get_secret-create_secret_example :
    (let w' = (create_secret toy (text "db") (text "pw") [] (as_user 7) start).1 in
      ((x : Secret) × ((get_secret toy 20 (as_user 7) w').0 ≡ ok x)
        × (x.encrypted_value ≡ text "pw"))
      × ((y : Secret) × ((get_secret_by_name toy (text "db") (as_user 7) w').0 ≡ ok y)
          × (y.encrypted_value ≡ text "pw"))
      × (is_ok (get_secret toy 20 (as_user 8) w').0 ≡ false))
unfolding create_secret encrypt create_secret_row
get_secret-create_secret_example =
    get_secret-create_secret toy toy-IsSound (as_user 7) (as_user 7) (as_user 8) start (text "db")
      (text "pw") [] {s = stored} refl refl (λ h. omega (arith, h)) refl
