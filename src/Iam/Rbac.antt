-- ===== src/Iam/Rbac.antt =====
-- internal/core/services/rbac.go. `uuid.Parse` is a parameter: it reads an identifier from a text.
use thecloud.Prelude.{
  ℕ, Bool, true, false, Option, none, some, List, [], ◌∷◌, Text, text_eq, ◌||◌, not, if◌then◌else◌,
}
use thecloud.Errors.{new, plain, forbidden}
use thecloud.Action.{Result, ok, err, Done, pure, map_error, attempt, raise_if, ◌>>=◌}
use thecloud.Iam.Types.{
  Permission, Role, instance_read, volume_read, vpc_read, full_access, role_admin, role_developer,
  role_viewer,
}
use thecloud.Iam.Repo.{Iam, get_by_id, get_by_email, update_user, get_role_by_name}

-- `hasDefaultPermission`: what a role grants by its name alone.
unfoldable pub has_default_permission : Text → Permission → Bool
has_default_permission role permission =
    if text_eq role role_admin
    then true
    else if text_eq role role_viewer
    then text_eq permission instance_read
      || text_eq permission volume_read
      || text_eq permission vpc_read
    else if text_eq role role_developer
    then not (text_eq permission full_access)
    else false

-- The loop of `HasPermission` over a role's permissions.
unfoldable pub grants : List Permission → Permission → Bool
grants [] permission = false
grants (p ∷ ps) permission =
    if text_eq p full_access
    then true
    else if text_eq p permission
    then true
    else grants ps permission

-- What `HasPermission` concludes once the role was looked up.
unfoldable pub decide_role : Text → Result Role → Permission → Bool
unfolding has_default_permission grants
decide_role name (err x) permission = has_default_permission name permission
decide_role name (ok role) permission = grants role.permissions permission

-- `HasPermission`. Any failure of the second query, not only a missing role, takes the fallback.
unfoldable pub has_permission : ℕ → Permission → Iam Bool
unfolding decide_role get_by_id get_role_by_name
has_permission user_id permission = do
  user ← map_error (λ x. plain) (get_by_id user_id)
  role ← attempt (get_role_by_name user.role)
  pure (decide_role user.role role permission)

-- `Authorize`.
unfoldable pub authorize : ℕ → Permission → Iam Done
unfolding has_permission
authorize user_id permission = do
  allowed ← has_permission user_id permission
  raise_if (not allowed) (new forbidden)

-- `BindRole`, for a user given by identifier or by email.
unfoldable pub bind_role : (Text → Option ℕ) → Text → Text → Iam Done
unfolding get_role_by_name get_by_id get_by_email update_user
bind_role parse_id identifier role_name = do
  role ← map_error (λ x. plain) (get_role_by_name role_name)
  user ←
      map_error (λ x. plain)
        (elim (parse_id identifier) [ some id ↦ get_by_id id | none ↦ get_by_email identifier ])
  update_user (record user { role = role_name })
