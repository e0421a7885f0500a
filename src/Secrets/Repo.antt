-- ===== src/Secrets/Repo.antt =====
-- internal/repositories/postgres/secret_repo.go, with the constraints of its migration.
use thecloud.Prelude.{
  ℕ, Bool, Option, none, some, List, [], ◌∷◌, ◌++◌, Text, text_eq, keep, find?, any, modify, ◌==◌,
  ◌&&◌, ◌||◌, not, if◌then◌else◌,
}
use thecloud.Errors.{new, plain, not_found}
use thecloud.Action.{Result, ok, err, Action, Done, ask, call, ◌>>=◌}
use thecloud.Secrets.Types.{Secret, Tables}

abbrev row_or_missing : Option Secret → Result Secret
row_or_missing none = err (new not_found)
row_or_missing (some s) = ok s

abbrev pub is_secret : ℕ → ℕ → Secret → Bool
is_secret id user s = s.id == id && s.user_id == user

abbrev pub is_named : Text → ℕ → Secret → Bool
is_named name user s = text_eq s.name name && s.user_id == user

-- What the constraints refuse: the names of a user's secrets differ.
abbrev pub clashes : Secret → Secret → Bool
clashes s x = x.id == s.id || is_named s.name s.user_id x

-- The columns that `Update` sets.
abbrev pub set_columns : Secret → Secret → Secret
set_columns s row = record row {
  encrypted_value = s.encrypted_value;
  description = s.description;
  last_accessed_at = s.last_accessed_at;
}

-- `Create`.
unfoldable pub create_secret_row : Secret → Action Tables Done
create_secret_row s = call λ t. if any (clashes s) t then (err plain, t) else (ok tt, t ++ s ∷ [])

-- `GetByID` and `GetByName`.
unfoldable pub get_secret_by_id : ℕ → Action Tables Secret
get_secret_by_id id = do
  user ← ask (λ e. e.user)
  call (λ t. (row_or_missing (find? (is_secret id user) t), t))

unfoldable pub get_secret_row_by_name : Text → Action Tables Secret
get_secret_row_by_name name = do
  user ← ask (λ e. e.user)
  call (λ t. (row_or_missing (find? (is_named name user) t), t))

-- `List`.
unfoldable pub list_secret_rows : Action Tables (List Secret)
list_secret_rows = do
  user ← ask (λ e. e.user)
  call (λ t. (ok (keep (λ (s : Secret). s.user_id == user) t), t))

-- `Update`.
unfoldable pub update_secret : Secret → Action Tables Done
update_secret s = call λ t. (ok tt, modify (is_secret s.id s.user_id) (set_columns s) t)

-- `Delete`: no error if there is no such row.
unfoldable pub delete_secret_row : ℕ → Action Tables Done
delete_secret_row id = do
  user ← ask (λ e. e.user)
  call (λ t. (ok tt, keep (λ s. not (is_secret id user s)) t))
