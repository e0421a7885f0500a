-- ===== src/Iam/Access.antt =====
-- Who may do what: the answers of internal/core/services/rbac.go and of the middleware in
-- pkg/httputil/auth.go, against the tables.
use thecloud.Prelude.{
  ℕ, suc, Bool, true, false, none, some, List, [], ◌∷◌, map, keep, find?, any, Text, text_eq, ◌==◌,
  ◌||◌, if◌then◌else◌, ◌≡◌, refl, ◌≢◌, inl, inr, arith, Option-cases, ==_refl, text_eq_refl,
  text_eq-ne, any-append, text, not, ◌&&◌, text_eq_sound, Bool-cases,
}
use thecloud.Errors.{new, forbidden}
use thecloud.Action.{ok, err, World, Env, nil_id}
use thecloud.Iam.Types.{User, Permission, RoleRow, Tables, full_access, role_developer}
use thecloud.Iam.Repo.{is_grant, add_permission_to_role}
use thecloud.Iam.Rbac.{has_default_permission, grants, has_permission, authorize}
use thecloud.Iam.Http.{next, permission}

-- The loop over the permissions of a role looks for `*` and for the permission itself.
grants-any :
    (rows : List (ℕ × Permission)) (id : ℕ) (p : Permission)
    → grants (map (λ (q : ℕ × Permission). q.1) (keep (λ (q : ℕ × Permission). q.0 == id) rows)) p
      ≡ (any (is_grant id full_access) rows || any (is_grant id p) rows)
unfolding grants
grants-any [] id p = refl
grants-any (q ∷ rows) id p = ground (arith, grants-any rows id p)

-- What a role grants by its name: everything to `admin`, everything but `*` to `developer`, and to
-- `viewer` the reading of instances, volumes and VPCs.
abbrev pub name_allows : Text → Permission → Bool
name_allows name p =
    text_eq name (text "admin")
    || (text_eq name (text "developer") && not (text_eq p (text "*")))
    || (text_eq name (text "viewer")
        && any (text_eq p) (text "instance:read" ∷ text "volume:read" ∷ text "vpc:read" ∷ []))

has_default_permission-name :
    (name : Text) (p : Permission) → has_default_permission name p ≡ name_allows name p
unfolding has_default_permission
has_default_permission-name name p = elim (Bool-cases (text_eq name (text "viewer"))) [
  | inl viewer ↦ rw (text_eq_sound name (text "viewer") viewer) (ground arith)
  | inr other ↦ ground (arith, other)
]

-- What is right of a user and a permission: the row of the role decides, which grants `*` or the
-- permission, and only a role without a row is judged by its name.
abbrev pub row_allows : Tables → Text → Permission → Bool
row_allows t name p = elim (find? (λ (r : RoleRow). text_eq r.name name) t.roles) [
  | none ↦ name_allows name p
  | some r ↦
      any (is_grant r.id (text "*")) t.role_permissions || any (is_grant r.id p) t.role_permissions
]

abbrev pub allows : Tables → ℕ → Permission → Bool
allows t id p = elim (find? (λ (u : User). u.id == id) t.users) [
  | none ↦ false
  | some u ↦ row_allows t u.role p
]

-- No call of the database fails.
abbrev pub Quiet : Env → Type 0
Quiet e = (n : ℕ) → e.fails n ≡ false

has_permission-row :
    (e : Env) (w : World Tables) (id : ℕ) (p : Permission) (u : User)
    → Quiet e
    → find? (λ (v : User). v.id == id) w.tables.users ≡ some u
    → (has_permission id p e w).0 ≡ ok (row_allows w.tables u.role p)
unfolding has_permission
has_permission-row e w id p u q found =
    elim (Option-cases (find? (λ (r : RoleRow). text_eq r.name u.role) w.tables.roles)) [
      | inl missing ↦ ground (
        arith,
        q w.tick,
        q (suc w.tick),
        q (suc (suc w.tick)),
        has_default_permission-name u.role p,
      )
      | inr (r, here) ↦ ground (
        arith,
        q w.tick,
        q (suc w.tick),
        q (suc (suc w.tick)),
        grants-any w.tables.role_permissions r.id p,
      )
    ]

-- With no failing call, `authorize` accepts a user of the table exactly where the row of the user's role
-- grants `*` or the permission, or where that role has no row and its name grants the permission
-- (everything to `admin`, all but `*` to `developer`, three permissions to read to `viewer`), and
-- answers `Forbidden` otherwise.
pub authorize-allows :
    (e : Env) (w : World Tables) (id : ℕ) (p : Permission) {u : User}
    → Quiet e
    → find? (λ (v : User). v.id == id) w.tables.users ≡ some u
    → (authorize id p e w).0 ≡ (if allows w.tables id p then ok tt else err (new forbidden))
unfolding authorize
authorize-allows e w id p {u} q found = ground (arith, has_permission-row e w id p u q found)

-- The middleware hands a request on only for a user other than `uuid.Nil` whom `authorize`
-- accepts in the same state, and then under that user's identifier.
pub permission-next :
    (e : Env) (w : World Tables) (id who : ℕ) (p : Permission)
    → (permission id p e w).0 ≡ next who
    → (id ≢ nil_id) × (who ≡ id) × ((authorize id p e w).0 ≡ ok tt)
unfolding permission
permission-next e w id who p h = ground arith

developer_default :
    (name : Text) (p : Permission)
    → name ≡ role_developer
    → p ≢ full_access
    → has_default_permission name p ≡ true
unfolding has_default_permission
developer_default name p same ne = rw (same, text_eq-ne p full_access ne) refl

-- The fallback is taken on any failure: if the query for the role's row fails, a user whose role
-- is `developer` is granted every permission but `*`, whatever the row of that role says.
pub has_permission-fails_open :
    (e : Env) (w : World Tables) (id : ℕ) (p : Permission) {u : User}
    → find? (λ (v : User). v.id == id) w.tables.users ≡ some u
    → u.role ≡ role_developer
    → p ≢ full_access
    → e.fails w.tick ≡ false
    → e.fails (suc w.tick) ≡ true
    → (authorize id p e w).0 ≡ ok tt
unfolding authorize has_permission
has_permission-fails_open e w id p {u} found role ne first second =
    ground (arith, developer_default u.role p role ne)

-- A permission added to a role is granted to every user who has the role.
pub allows-add_permission_to_role :
    (e : Env) (w : World Tables) (id role : ℕ) (p : Permission) {u : User} {r : RoleRow}
    → find? (λ (v : User). v.id == id) w.tables.users ≡ some u
    → find? (λ (x : RoleRow). text_eq x.name u.role) w.tables.roles ≡ some r
    → r.id ≡ role
    → (add_permission_to_role role p e w).0 ≡ ok tt
    → allows (add_permission_to_role role p e w).1.tables id p ≡ true
unfolding add_permission_to_role
allows-add_permission_to_role e w id role p {u} {r} found here same done = ground (
  arith,
  any-append (is_grant role p) w.tables.role_permissions ((role, p) ∷ []),
  ==_refl role,
  text_eq_refl p,
)
