-- ===== src/Iam/Tests.antt =====
-- A small installation: two users, a role with one permission, a key and a reset token.
use thecloud.Prelude.{
  ◌+◌, false, none, some, List, [], ◌∷◌, Text, text, length, text_eq, ◌≡◌, refl, arith, leb, ◌==◌,
}
use thecloud.Errors.{new, forbidden}
use thecloud.Action.{is_ok, ok, err, World, Env}
use thecloud.Iam.Types.{
  User, RoleRow, ApiKey, ResetToken, Crypto, Tables, instance_read, volume_read, role_developer,
}
use thecloud.Iam.Rbac.{authorize}
use thecloud.Iam.Access.{authorize-allows, has_permission-fails_open}
use thecloud.Iam.Identity.{create_key, revoke_key, rotate_key}
use thecloud.Iam.Keys.{foreign_key_safe, rotate_key-replaces, find_key, find_secret}

abbrev alice : User
alice = record {
  id = 7;
  email = text "alice@x";
  password_hash = text "secret";
  name = text "Alice";
  role = text "editor";
}

abbrev dan : User
dan = record {
  id = 8;
  email = text "dan@x";
  password_hash = text "hidden";
  name = text "Dan";
  role = role_developer;
}

abbrev editor : RoleRow
editor = record { id = 3; name = text "editor"; description = [] }

abbrev key : ApiKey
key = record { id = 20; user_id = 7; key = text "thecloud_k"; name = text "ci" }

abbrev fresh_token : ResetToken
fresh_token = record {
  id = 30;
  user_id = 7;
  token_hash = text "t";
  expires_at = 4000;
  used = false;
}

abbrev old_token : ResetToken
old_token = record { id = 31; user_id = 7; token_hash = text "o"; expires_at = 10; used = false }

abbrev start : World Tables
start = record {
  tables = record {
    users = alice ∷ dan ∷ [];
    roles = editor ∷ [];
    role_permissions = (3, instance_read) ∷ [];
    api_keys = key ∷ [];
    reset_tokens = fresh_token ∷ old_token ∷ [];
    failed_attempts = [];
    lockouts = [];
  };
  journal = [];
  tick = 0;
}

abbrev quiet : Env
quiet = record { fails = λ n. false; clock = λ n. 1000; fresh = λ n. 100 + n; user = 7 }

-- The second call fails.
abbrev flaky : Env
flaky = record { fails = λ n. n == 1; clock = λ n. 1000; fresh = λ n. 100 + n; user = 7 }

abbrev toy : Crypto
toy = record {
  hash = λ n p. some p;
  matches = λ h p. text_eq h p;
  digest = λ t. t;
  random_hex = λ n t. text "ff";
  is_strong = λ p. leb 8 (length p);
}

authorize-allows_example : (authorize 7 volume_read quiet start).0 ≡ err (new forbidden)
authorize-allows_example = authorize-allows quiet start 7 volume_read {u = alice} (λ n. refl) refl

has_permission-fails_open_example : (authorize 8 volume_read flaky start).0 ≡ ok tt
has_permission-fails_open_example =
    has_permission-fails_open flaky start 8 volume_read {u = dan} refl refl (λ e. cc e) refl refl

abbrev locked_start : World Tables
locked_start = record start {
  tables = record start.tables { lockouts = (text "alice@x", 1500) ∷ [] };
}

abbrev guesses : List Text
guesses = text "a" ∷ text "b" ∷ text "c" ∷ text "d" ∷ text "e" ∷ []

foreign_key_safe_example :
    (is_ok (revoke_key 8 20 quiet start).0 ≡ false)
    × ((revoke_key 8 20 quiet start).1.tables ≡ start.tables)
    × (is_ok (rotate_key toy 8 20 quiet start).0 ≡ false)
    × ((rotate_key toy 8 20 quiet start).1.tables ≡ start.tables)
foreign_key_safe_example =
    foreign_key_safe toy quiet start 8 20 {k = key} refl (λ e. omega (arith, e))

abbrev new_key : ApiKey
new_key = record { id = 102; user_id = 7; key = text "thecloud_ff"; name = text "ci (rotated)" }

rotate_key-replaces_example :
    (new_key.user_id ≡ 7)
    × (find_key 20 (rotate_key toy 7 20 quiet start).1.tables ≡ none)
    × (find_secret (text "thecloud_ff") (rotate_key toy 7 20 quiet start).1.tables ≡ some new_key)
unfolding rotate_key create_key
rotate_key-replaces_example =
    rotate_key-replaces toy quiet start (λ n. refl) 7 20 {k = new_key} refl
