-- ===== src/Iam/Reset.antt =====
-- internal/core/services/password_reset.go.
use thecloud.Prelude.{◌+◌, false, Text, ltb}
use thecloud.Errors.{plain}
use thecloud.Action.{
  Result, ok, err, Done, pure, map_error, attempt, raise_if, new_id, now, ◌>>=◌, ◌>>◌,
}
use thecloud.Iam.Types.{User, Crypto, token_duration}
use thecloud.Iam.Repo.{
  Iam, get_by_email, get_by_id, update_user, create_reset_token, get_by_token_hash, mark_as_used,
}
use thecloud.Iam.Identity.{random}
use thecloud.Iam.Auth.{hashed}

module _ (c : Crypto) where
  -- `RequestReset` once the user was looked up: an unknown email is no error.
  issue_token : Result User → Iam Done
  unfolding create_reset_token
  issue_token (err x) = pure tt
  issue_token (ok user) = do
    token ← random c 32
    id ← new_id
    time ← now
    create_reset_token (record {
      id = id;
      user_id = user.id;
      token_hash = c.digest token;
      expires_at = time + token_duration;
      used = false;
    })

  -- `RequestReset`.
  unfoldable pub request_reset : Text → Iam Done
  unfolding get_by_email issue_token
  request_reset email = do found ← attempt (get_by_email email); issue_token found

  -- `ResetPassword`.
  unfoldable pub reset_password : Text → Text → Iam Done
  unfolding get_by_token_hash get_by_id update_user mark_as_used hashed
  reset_password token password = do
    entry ← map_error (λ x. plain) (get_by_token_hash (c.digest token))
    raise_if entry.used plain
    time ← now
    raise_if (ltb entry.expires_at time) plain
    hash ← hashed c password
    user ← get_by_id entry.user_id
    update_user (record user { password_hash = hash })
    mark_as_used entry.id
