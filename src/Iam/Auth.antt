-- ===== src/Iam/Auth.antt =====
-- internal/core/services/auth.go: registration and login, with the lockout after failed attempts.
-- The mutex makes each block on the two maps one step.
use thecloud.Prelude.{
  ℕ, ◌+◌, Bool, true, false, Option, none, some, Text, text, lookup, erase, insert, ltb, leb, not,
  if◌then◌else◌,
}
use thecloud.Errors.{new, plain, invalid_input, unauthorized}
use thecloud.Action.{
  Result, ok, err, Done, pure, raise, gets, update, map_error, attempt, raise_if, new_id, now, note,
  ◌>>=◌, ◌>>◌,
}
use thecloud.Iam.Types.{User, Crypto, max_failed_attempts, lockout_duration}
use thecloud.Iam.Repo.{Iam, create_user, get_by_email, get_by_id}
use thecloud.Iam.Identity.{create_key}

-- `m[k]` of a Go map of integers: 0 where the key is missing.
abbrev pub count_of : Option ℕ → ℕ
count_of none = 0
count_of (some n) = n

-- `incrementFailure`.
unfoldable pub increment_failure : Text → Iam Done
increment_failure email = do
  seen ← gets (λ t. count_of (lookup email t.failed_attempts) + 1)
  update (λ t. record t { failed_attempts = insert email seen t.failed_attempts })
  if leb max_failed_attempts seen
      then (do
        time ← now
        update (λ t. record t { lockouts = insert email (time + lockout_duration) t.lockouts }))
      else pure tt

-- The first block of `Login`: a lockout that has run out is cleared.
unfoldable pub check_lockout : Text → Option ℕ → Iam Done
check_lockout email none = pure tt
check_lockout email (some until) = do
  time ← now
  if ltb time until
      then raise (new unauthorized)
      else update (λ t. record t {
        lockouts = erase email t.lockouts;
        failed_attempts = erase email t.failed_attempts;
      })

module _ (c : Crypto) where
  -- What `GetByEmail` found, when a user is to be registered: an error counts as no user.
  abbrev is_taken : Result User → Bool
  is_taken (ok u) = true
  is_taken (err x) = false

  unfoldable pub hashed : Text → Iam Text
  hashed password = do
    salt ← new_id
    λ e w. (elim (c.hash salt password) [ some h ↦ ok h | none ↦ err plain ], w)

  -- `Register`.
  unfoldable pub register : Text → Text → Text → Iam User
  unfolding get_by_email create_user hashed
  register email password name = do
    raise_if (not (c.is_strong password)) (new invalid_input)
    existing ← attempt (get_by_email email)
    raise_if (is_taken existing) (new invalid_input)
    hash ← hashed password
    id ← new_id
    let user : User = record {
      id = id;
      email = email;
      password_hash = hash;
      name = name;
      role = text "user";
    }
    create_user user
    note "user.register" id id
    pure user

  -- `Login` from the comparison of the password on.
  unfoldable pub verify_password : Text → Text → Result User → Iam (User × Text)
  verify_password email password (err x) = do increment_failure email; raise (new unauthorized)
  verify_password email password (ok user) =
      if c.matches user.password_hash password
      then (do
        update (λ t. record t { failed_attempts = erase email t.failed_attempts })
        key ← map_error (λ x. plain) (create_key c user.id (text "Default Key"))
        note "user.login" user.id user.id
        pure (user, key.key))
      else (do increment_failure email; raise (new unauthorized))

  -- `Login`: the user and a new API key.
  unfoldable pub login : Text → Text → Iam (User × Text)
  login email password = do
    lockout ← gets (λ t. lookup email t.lockouts)
    check_lockout email lockout
    found ← attempt (get_by_email email)
    verify_password email password found

-- `ValidateUser`.
unfoldable pub validate_user : ℕ → Iam User
unfolding get_by_id
validate_user id = get_by_id id
