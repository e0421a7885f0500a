-- ===== src/Secrets/Service.antt =====
-- internal/core/services/secret.go.
use thecloud.Prelude.{ℕ, none, some, List, Text, text, map}
use thecloud.Errors.{wrap, internal}
use thecloud.Action.{
  Result, Action, Done, pure, ask, map_error, ignore, new_id, now, note, ◌>>=◌, ◌>>◌,
}
use thecloud.Secrets.Types.{Secret, Tables, Primitives}
use thecloud.Secrets.Crypto.{derive_key, encrypt, decrypt}
use thecloud.Secrets.Repo.{
  create_secret_row, get_secret_by_id, get_secret_row_by_name, list_secret_rows, update_secret,
  delete_secret_row,
}

-- A result that is wrapped as an internal error.
abbrev pub of_result : {A : Type 0} → Result A → Action Tables A
of_result r = map_error (wrap internal) (λ e w. (r, w))

-- The answer of `ListSecrets` hides the value.
abbrev pub redacted : Secret → Secret
redacted s = record s { encrypted_value = text "[REDACTED]" }

abbrev pub new_secret : ℕ → ℕ → Text → Text → Text → Secret
new_secret id user name encrypted description = record {
  id = id;
  user_id = user;
  name = name;
  encrypted_value = encrypted;
  description = description;
  last_accessed_at = none;
}

module _ (c : Primitives) where
  -- `CreateSecret`.
  unfoldable pub create_secret : Text → Text → Text → Action Tables Secret
  create_secret name value description = do
    user ← ask (λ e. e.user)
    key ← of_result (derive_key c user)
    encrypted ← map_error (wrap internal) (encrypt c value key)
    id ← new_id
    let secret = new_secret id user name encrypted description
    create_secret_row secret
    note "SECRET_CREATE" user id
    note "secret.create" user id
    pure secret

  -- The rest of `GetSecret` and of `GetSecretByName` for a secret that was found.
  unfoldable pub open_secret : Secret → Action Tables Secret
  open_secret secret = do
    key ← of_result (derive_key c secret.user_id)
    value ← of_result (decrypt c secret.encrypted_value key)
    time ← now
    let accessed : Secret = record secret { last_accessed_at = some time }
    ignore (update_secret accessed)
    note "SECRET_ACCESS" secret.user_id secret.id
    note "secret.access" secret.user_id secret.id
    pure (record accessed { encrypted_value = value })

  -- `GetSecret` and `GetSecretByName`.
  unfoldable pub get_secret : ℕ → Action Tables Secret
  get_secret id = do secret ← get_secret_by_id id; open_secret secret

  unfoldable pub get_secret_by_name : Text → Action Tables Secret
  get_secret_by_name name = do secret ← get_secret_row_by_name name; open_secret secret

-- `ListSecrets`.
unfoldable pub list_secrets : Action Tables (List Secret)
list_secrets = do secrets ← list_secret_rows; pure (map redacted secrets)

-- `DeleteSecret`.
unfoldable pub delete_secret : ℕ → Action Tables Done
delete_secret id = do
  secret ← get_secret_by_id id
  delete_secret_row id
  note "SECRET_DELETE" secret.user_id id
  note "secret.delete" secret.user_id id
