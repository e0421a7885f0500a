-- ===== src/Iam/Identity.antt =====
-- internal/core/services/identity.go: API keys.
use thecloud.Prelude.{ℕ, List, ◌++◌, Text, text, ◌==◌, not}
use thecloud.Errors.{new, wrap, forbidden, internal}
use thecloud.Action.{
  Result, ok, err, Done, pure, call, map_error, attempt, raise_if, new_id, note, ◌>>=◌, ◌>>◌,
}
use thecloud.Iam.Types.{ApiKey, Crypto}
use thecloud.Iam.Repo.{
  Iam, create_api_key, get_api_key_by_key, get_api_key_by_id, list_api_keys_by_user_id,
  delete_api_key,
}

-- `rand.Read` of so many bytes, in hexadecimal.
abbrev pub random : Crypto → ℕ → Iam Text
random c bytes e w = call (λ t. (ok (c.random_hex bytes w.tick), t)) e w

-- `ValidateAPIKey`.
unfoldable pub validate_api_key : Text → Iam ApiKey
unfolding get_api_key_by_key
validate_api_key key = get_api_key_by_key key

-- `ListKeys`.
unfoldable pub list_keys : ℕ → Iam (List ApiKey)
unfolding list_api_keys_by_user_id
list_keys user_id = list_api_keys_by_user_id user_id

-- `RevokeKey`.
unfoldable pub revoke_key : ℕ → ℕ → Iam Done
unfolding get_api_key_by_id delete_api_key
revoke_key user_id id = do
  key ← get_api_key_by_id id
  raise_if (not (key.user_id == user_id)) (new forbidden)
  delete_api_key id
  note "api_key.revoke" user_id id

-- What `RotateKey` does after the deletion of the old key, which may have failed.
rotated : ℕ → ℕ → ApiKey → Result Done → Iam ApiKey
rotated user_id id key (err x) = pure key
rotated user_id id key (ok d) = do note "api_key.rotate" user_id id; pure key

module _ (c : Crypto) where
  -- `CreateKey`.
  unfoldable pub create_key : ℕ → Text → Iam ApiKey
  unfolding create_api_key
  create_key user_id name = do
    hex ← map_error (wrap internal) (random c 16)
    id ← new_id
    let key : ApiKey = record {
      id = id;
      user_id = user_id;
      key = text "thecloud_" ++ hex;
      name = name;
    }
    create_api_key key
    note "api_key.create" user_id key.id
    pure key

  -- `RotateKey`.
  unfoldable pub rotate_key : ℕ → ℕ → Iam ApiKey
  unfolding get_api_key_by_id delete_api_key rotated
  rotate_key user_id id = do
    key ← get_api_key_by_id id
    raise_if (not (key.user_id == user_id)) (new forbidden)
    fresh_key ← create_key user_id (key.name ++ text " (rotated)")
    deleted ← attempt (delete_api_key id)
    rotated user_id id fresh_key deleted
