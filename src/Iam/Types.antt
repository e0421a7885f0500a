-- ===== src/Iam/Types.antt =====
-- internal/core/domain/{user,identity,password_reset,rbac}.go, the two maps of AuthService, and
-- what the services take from golang.org/x/crypto and the password validator.
use thecloud.Prelude.{ℕ, Bool, Option, List, Text, text, ◌*◌}

pub record User : Type 0 where
  pub id : ℕ
  pub email : Text
  pub password_hash : Text
  pub name : Text
  pub role : Text

-- `type Permission string`: a handler passes on any string.
abbrev pub Permission : Type 0
Permission = Text

abbrev pub instance_read : Permission
instance_read = text "instance:read"

abbrev pub volume_read : Permission
volume_read = text "volume:read"

abbrev pub vpc_read : Permission
vpc_read = text "vpc:read"

abbrev pub full_access : Permission
full_access = text "*"

abbrev pub role_admin : Text
role_admin = text "admin"

abbrev pub role_developer : Text
role_developer = text "developer"

abbrev pub role_viewer : Text
role_viewer = text "viewer"

pub record Role : Type 0 where
  pub id : ℕ
  pub name : Text
  pub description : Text
  pub permissions : List Permission

pub record ApiKey : Type 0 where
  pub id : ℕ
  pub user_id : ℕ
  pub key : Text
  pub name : Text

pub record ResetToken : Type 0 where
  pub id : ℕ
  pub user_id : ℕ
  pub token_hash : Text
  pub expires_at : ℕ
  pub used : Bool

-- A row of `roles`, without its permissions.
pub record RoleRow : Type 0 where
  pub id : ℕ
  pub name : Text
  pub description : Text

-- The tables `users`, `roles`, `role_permissions`, `api_keys` and `password_reset_tokens`, and
-- the maps `failedAttempts` and `lockouts` that AuthService holds in memory.
pub record Tables : Type 0 where
  pub users : List User
  pub roles : List RoleRow
  pub role_permissions : List (ℕ × Permission)
  pub api_keys : List ApiKey
  pub reset_tokens : List ResetToken
  pub failed_attempts : List (Text × ℕ)
  pub lockouts : List (Text × ℕ)

-- bcrypt, SHA-256, the random source and go-password-validator. `hash n p` is what bcrypt returns
-- for `p` under the n-th salt, `none` where it fails (a password of over 72 bytes).
pub record Crypto : Type 0 where
  pub hash : ℕ → Text → Option Text
  pub matches : Text → Text → Bool
  pub digest : Text → Text
  pub random_hex : ℕ → ℕ → Text
  pub is_strong : Text → Bool

abbrev pub max_failed_attempts : ℕ
max_failed_attempts = 5

-- 15 minutes.
abbrev pub lockout_duration : ℕ
lockout_duration = 15 * 60

-- 1 hour.
abbrev pub token_duration : ℕ
token_duration = 60 * 60
