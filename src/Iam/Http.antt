-- ===== src/Iam/Http.antt =====
-- pkg/httputil/response.go and auth.go: the status of an error, and the two middlewares in front
-- of every handler.
use thecloud.Prelude.{ℕ, [], Text, ◌==◌, if◌then◌else◌}
use thecloud.Errors.{
  Error, ErrorType, new, wrap, plain, not_found, invalid_input, internal, unauthorized, conflict,
  bucket_not_found, object_not_found, object_too_large, instance_not_running, port_conflict,
  too_many_ports, resource_limit_exceeded,
}
use thecloud.Action.{ok, err, World, Env, nil_id}
use thecloud.Iam.Types.{Permission, Tables}
use thecloud.Iam.Repo.{get_api_key_by_key}
use thecloud.Iam.Rbac.{authorize}

-- The type that the client sees: an error of another kind is shown as an internal one.
unfoldable pub type_of : Error → ErrorType
type_of (new t) = t
type_of (wrap t cause) = t
type_of plain = internal

-- The `switch` of `Error`.
unfoldable pub status_of_type : ErrorType → ℕ
status_of_type not_found = 404
status_of_type invalid_input = 400
status_of_type unauthorized = 401
status_of_type conflict = 409
status_of_type bucket_not_found = 404
status_of_type object_not_found = 404
status_of_type object_too_large = 413
status_of_type instance_not_running = 409
status_of_type port_conflict = 409
status_of_type too_many_ports = 409
status_of_type resource_limit_exceeded = 429
status_of_type _ = 500

-- `Error`: the status of the response.
unfoldable pub status_code : Error → ℕ
unfolding type_of status_of_type
status_code x = status_of_type (type_of x)

-- What a middleware does with a request: hand it on for a user, or answer with a status.
pub data Verdict : Type 0 where
  next : ℕ → Verdict
  abort : ℕ → Verdict

-- `Auth`: the header `X-API-Key`, empty where it is missing.
unfoldable pub auth : Text → Env → World Tables → Verdict × World Tables
unfolding status_code get_api_key_by_key
auth [] e w = (abort (status_code (new unauthorized)), w)
auth key e w =
    let (r, w') = get_api_key_by_key key e w in
    (elim r [ ok k ↦ next k.user_id | err x ↦ abort (status_code (new unauthorized)) ], w')

-- `Permission`: the user that `Auth` stored, `uuid.Nil` if none.
unfoldable pub permission : ℕ → Permission → Env → World Tables → Verdict × World Tables
unfolding status_code authorize
permission user_id p e w =
    if user_id == nil_id
    then (abort (status_code (new unauthorized)), w)
    else (let (r, w') = authorize user_id p e w in
        (elim r [ ok d ↦ next user_id | err x ↦ abort (status_code x) ], w'))
