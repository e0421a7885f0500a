-- ===== src/Iam/Repo.antt =====
-- internal/repositories/postgres/{user_repo,rbac_repo,identity_repo,password_reset}.go: each query
-- on the tables, with the constraints of internal/repositories/postgres/migrations.
use thecloud.Prelude.{
  ℕ, Bool, true, Option, none, some, List, [], ◌∷◌, ◌++◌, map, keep, find?, any, modify, Text,
  text_eq, ◌==◌, ◌&&◌, ◌||◌, not, if◌then◌else◌,
}
use thecloud.Errors.{Error, new, wrap, plain, unauthorized, internal, object_not_found}
use thecloud.Action.{Result, ok, err, Action, Done, call, pure, map_error, ◌>>=◌}
use thecloud.Iam.Types.{User, Permission, Role, RoleRow, ApiKey, ResetToken, Tables}

abbrev pub Iam : Type 0 → Type 0
Iam A = Action Tables A

-- `pgx.ErrNoRows`, and any other failure of the driver, reach the caller as an error.
abbrev pub one_row : {A : Type 0} → Option A → Error → Result A
one_row (some a) x = ok a
one_row none x = err x

-- `UserRepo.Create`: `id` is the primary key and `email` is unique.
unfoldable pub create_user : User → Iam Done
create_user u = call λ t.
    if any (λ (v : User). v.id == u.id || text_eq v.email u.email) t.users
    then (err plain, t)
    else (ok tt, record t { users = t.users ++ u ∷ [] })

-- `UserRepo.GetByEmail`.
unfoldable pub get_by_email : Text → Iam User
get_by_email email =
    call λ t. (one_row (find? (λ (u : User). text_eq u.email email) t.users) plain, t)

-- `UserRepo.GetByID`.
unfoldable pub get_by_id : ℕ → Iam User
get_by_id id = call λ t. (one_row (find? (λ (u : User). u.id == id) t.users) plain, t)

-- `UserRepo.Update`: no error if no row has the identifier.
unfoldable pub update_user : User → Iam Done
update_user u = call λ t.
    if any (λ (v : User). text_eq v.email u.email && not (v.id == u.id)) t.users
    then (err plain, t)
    else (ok tt, record t { users = modify (λ (v : User). v.id == u.id) (λ v. u) t.users })

-- `rbacRepository.GetPermissionsForRole`.
unfoldable pub get_permissions_for_role : ℕ → Iam (List Permission)
get_permissions_for_role id = call λ t. (
  ok (
      map (λ (p : ℕ × Permission). p.1)
        (keep (λ (p : ℕ × Permission). p.0 == id) t.role_permissions)),
  t,
)

abbrev with_permissions : RoleRow → Iam Role
with_permissions r = do
  perms ← get_permissions_for_role r.id
  pure (record { id = r.id; name = r.name; description = r.description; permissions = perms })

-- `rbacRepository.GetRoleByID`.
unfoldable pub get_role_by_id : ℕ → Iam Role
unfolding get_permissions_for_role
get_role_by_id id = do
  r ← call (λ t. (one_row (find? (λ (r : RoleRow). r.id == id) t.roles) plain, t))
  with_permissions r

-- `rbacRepository.GetRoleByName`.
unfoldable pub get_role_by_name : Text → Iam Role
unfolding get_permissions_for_role
get_role_by_name name = do
  r ← call (λ t. (one_row (find? (λ (r : RoleRow). text_eq r.name name) t.roles) plain, t))
  with_permissions r

-- `rbacRepository.DeleteRole`, with the cascade to `role_permissions`.
unfoldable pub delete_role : ℕ → Iam Done
delete_role id = call λ t. (
  ok tt,
  record t {
    roles = keep (λ (r : RoleRow). not (r.id == id)) t.roles;
    role_permissions = keep (λ (p : ℕ × Permission). not (p.0 == id)) t.role_permissions;
  },
)

abbrev pub is_grant : ℕ → Permission → ℕ × Permission → Bool
is_grant id perm p = (p.0 == id) && text_eq p.1 perm

-- `rbacRepository.AddPermissionToRole`: `role_id` refers to `roles`, and the pair is the key.
unfoldable pub add_permission_to_role : ℕ → Permission → Iam Done
add_permission_to_role id perm = call λ t.
    if any (is_grant id perm) t.role_permissions
    then (ok tt, t)
    else if any (λ (r : RoleRow). r.id == id) t.roles
    then (ok tt, record t { role_permissions = t.role_permissions ++ (id, perm) ∷ [] })
    else (err plain, t)

-- `rbacRepository.RemovePermissionFromRole`.
unfoldable pub remove_permission_from_role : ℕ → Permission → Iam Done
remove_permission_from_role id perm = call λ t.
    (ok tt, record t { role_permissions = keep (λ p. not (is_grant id perm p)) t.role_permissions })

-- `IdentityRepository.CreateAPIKey`: the identifier, the key and its user are constrained.
unfoldable pub create_api_key : ApiKey → Iam Done
create_api_key k = map_error (wrap internal) (
    call λ t.
      if any (λ (j : ApiKey). j.id == k.id || text_eq j.key k.key) t.api_keys
        || not (any (λ (u : User). u.id == k.user_id) t.users)
      then (err plain, t)
      else (ok tt, record t { api_keys = t.api_keys ++ k ∷ [] }))

-- `IdentityRepository.GetAPIKeyByKey`: a driver's failure is wrapped, a missing row is not.
unfoldable pub get_api_key_by_key : Text → Iam ApiKey
get_api_key_by_key key = do
  row ←
      map_error (wrap internal)
        (call (λ t. (ok (find? (λ (k : ApiKey). text_eq k.key key) t.api_keys), t)))
  (λ e w. (one_row row (new unauthorized), w))

-- `IdentityRepository.GetAPIKeyByID`.
unfoldable pub get_api_key_by_id : ℕ → Iam ApiKey
get_api_key_by_id id = do
  row ←
      map_error (wrap internal)
        (call (λ t. (ok (find? (λ (k : ApiKey). k.id == id) t.api_keys), t)))
  (λ e w. (one_row row (new object_not_found), w))

-- `IdentityRepository.ListAPIKeysByUserID`.
unfoldable pub list_api_keys_by_user_id : ℕ → Iam (List ApiKey)
list_api_keys_by_user_id user =
    map_error (wrap internal)
      (call (λ t. (ok (keep (λ (k : ApiKey). k.user_id == user) t.api_keys), t)))

-- `IdentityRepository.DeleteAPIKey`: no error if no row has the identifier.
unfoldable pub delete_api_key : ℕ → Iam Done
delete_api_key id =
    map_error (wrap internal) (
      call λ t. (ok tt, record t { api_keys = keep (λ (k : ApiKey). not (k.id == id)) t.api_keys }))

-- `PasswordResetRepository.Create`.
unfoldable pub create_reset_token : ResetToken → Iam Done
create_reset_token k = call λ t.
    if any (λ (j : ResetToken). j.id == k.id || text_eq j.token_hash k.token_hash) t.reset_tokens
      || not (any (λ (u : User). u.id == k.user_id) t.users)
    then (err plain, t)
    else (ok tt, record t { reset_tokens = t.reset_tokens ++ k ∷ [] })

-- `PasswordResetRepository.GetByTokenHash`.
unfoldable pub get_by_token_hash : Text → Iam ResetToken
get_by_token_hash h =
    call λ t. (one_row (find? (λ (k : ResetToken). text_eq k.token_hash h) t.reset_tokens) plain, t)

-- `PasswordResetRepository.MarkAsUsed`.
unfoldable pub mark_as_used : ℕ → Iam Done
mark_as_used id = call λ t. (
  ok tt,
  record t {
    reset_tokens =
        modify (λ (k : ResetToken). k.id == id) (λ k. record k { used = true }) t.reset_tokens;
  },
)
