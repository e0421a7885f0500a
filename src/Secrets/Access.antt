-- ===== src/Secrets/Access.antt =====
-- What is stored with secret.go is read back.
use thecloud.Prelude.{
  ℕ, suc, some, none, [], ◌∷◌, ◌++◌, Bool, false, sym, ◌≢◌, ◌==◌, if◌then◌else◌, ne→==, Text, find?,
  find?-append, find?-none, any, ◌≡◌, refl, ◌∙◌, arith, text_eq_refl, inl, inr, Bool-cases,
  Option-cases,
}
use thecloud.Action.{ok, is_ok, bind-err, World, Env, bind-first}
use thecloud.Secrets.Types.{Secret, Tables, Primitives, IsSound}
use thecloud.Secrets.Crypto.{derive_key, encrypt, decrypt, decrypt-sealed}
use thecloud.Secrets.Repo.{
  is_secret, is_named, clashes, create_secret_row, get_secret_by_id, get_secret_row_by_name,
}
use thecloud.Secrets.Service.{create_secret, open_secret, get_secret, get_secret_by_name}

-- What `CreateSecret` leaves: a secret of the caller with a new identifier and a new name, stored last,
-- that opens with the key of the caller.
abbrev Kept : Primitives → ℕ → Text → Text → Secret → Tables → Tables → Type 0
Kept c user name value s before after =
    (key : Text) × (derive_key c user ≡ ok key)
    × (decrypt c s.encrypted_value key ≡ ok value)
    × (s.user_id ≡ user)
    × (s.name ≡ name)
    × (any (clashes s) before ≡ false)
    × (after ≡ before ++ s ∷ [])

create_secret-Kept :
    (c : Primitives) (sound : IsSound c) (e : Env) (w : World Tables)
    (name value description : Text) {s : Secret}
    → (create_secret c name value description e w).0 ≡ ok s
    → Kept c e.user name value s w.tables (create_secret c name value description e w).1.tables
unfolding create_secret encrypt create_secret_row
create_secret-Kept c sound e w name value description {s} done =
    elim (Option-cases (c.hkdf c.master_key (c.bytes e.user))) [
      | inl lost ↦ ground arith
      | inr (key, derived) ↦
          let fits = sound.hkdf_key (c.bytes e.user) key derived in
          let opens = decrypt-sealed c sound key value (e.fresh (suc w.tick)) fits in
          (
            key,
            rw derived refl,
            ground (arith, opens),
            ground arith,
            ground arith,
            ground arith,
            ground arith,
          )
    ]

-- Opening does not depend on the calls that record the access.
open_secret_lem :
    (c : Primitives) (e : Env) (w : World Tables) (s : Secret) (key value : Text)
    → derive_key c s.user_id ≡ ok key
    → decrypt c s.encrypted_value key ≡ ok value
    → (x : Secret) × ((open_secret c s e w).0 ≡ ok x) × (x.encrypted_value ≡ value)
unfolding open_secret
open_secret_lem c e w s key value derived opens = (
  record s { last_accessed_at = some (e.clock w.tick); encrypted_value = value },
  ground (arith, derived, opens),
  refl,
)

find-last :
    (p : Secret → Bool) (before : Tables) (s : Secret)
    → any p before ≡ false
    → find? p (before ++ s ∷ []) ≡ (if p s then some s else none)
find-last p before s absent =
    ground (arith, find?-append p before (s ∷ []), find?-none p before absent)

any-weaken :
    (p q : Secret → Bool) (xs : Tables)
    → ((x : Secret) → q x ≡ false → p x ≡ false)
    → any q xs ≡ false
    → any p xs ≡ false
any-weaken p q [] weaker none_such = refl
any-weaken p q (x ∷ xs) weaker none_such = ground (arith, weaker x, any-weaken p q xs weaker)

read_by_id :
    (reader : Env) (w : World Tables) (before : Tables) (s : Secret)
    → reader.fails w.tick ≡ false
    → reader.user ≡ s.user_id
    → w.tables ≡ before ++ s ∷ []
    → any (clashes s) before ≡ false
    → (get_secret_by_id s.id reader w).0 ≡ ok s
unfolding get_secret_by_id
read_by_id reader w before s fine same stored new_one =
    let last =
      find-last (is_secret s.id s.user_id) before s
        (any-weaken (is_secret s.id s.user_id) (clashes s) before (λ x h. ground arith) new_one) in
    rw (fine, same, stored, last) (ground arith)

foreign_read :
    (other : Env) (w : World Tables) (before : Tables) (s : Secret)
    → other.user ≢ s.user_id
    → w.tables ≡ before ++ s ∷ []
    → any (clashes s) before ≡ false
    → is_ok (get_secret_by_id s.id other w).0 ≡ false
unfolding get_secret_by_id
foreign_read other w before s differs stored new_one = elim (Bool-cases (other.fails w.tick)) [
  | inl down ↦ rw down refl
  | inr fine ↦
      let last =
        find-last (is_secret s.id other.user) before s (
          any-weaken (is_secret s.id other.user) (clashes s) before (λ x h. ground arith)
            new_one) in
      let unlike : (s.user_id == other.user) ≡ false =
        ne→== s.user_id other.user (λ e. differs (sym e)) in
      rw (fine, stored, last) (ground (arith, unlike))
]

read_by_name :
    (reader : Env) (w : World Tables) (before : Tables) (s : Secret) (name : Text)
    → reader.fails w.tick ≡ false
    → reader.user ≡ s.user_id
    → s.name ≡ name
    → w.tables ≡ before ++ s ∷ []
    → any (clashes s) before ≡ false
    → (get_secret_row_by_name name reader w).0 ≡ ok s
unfolding get_secret_row_by_name
read_by_name reader w before s name fine same named stored new_one =
    let last =
      find-last (is_named s.name s.user_id) before s
        (any-weaken (is_named s.name s.user_id) (clashes s) before (λ x h. ground arith) new_one) in
    rw (fine, same, sym named, stored, last) (ground (arith, text_eq_refl s.name))

-- If the primitives do what they document, then what a user has stored with `CreateSecret` that user
-- reads back with `GetSecret` and `GetSecretByName`, if the query for the row succeeds, and any other
-- user who asks for the identifier gets an error.
pub get_secret-create_secret :
    (c : Primitives) (sound : IsSound c) (e reader other : Env) (w : World Tables)
    (name value description : Text) {s : Secret}
    → (create_secret c name value description e w).0 ≡ ok s
    → reader.user ≡ e.user
    → other.user ≢ e.user
    → reader.fails (create_secret c name value description e w).1.tick ≡ false
    → (let w' = (create_secret c name value description e w).1 in
        ((x : Secret) × ((get_secret c s.id reader w').0 ≡ ok x) × (x.encrypted_value ≡ value))
        × ((y : Secret) × ((get_secret_by_name c name reader w').0 ≡ ok y)
            × (y.encrypted_value ≡ value))
        × (is_ok (get_secret c s.id other w').0 ≡ false))
unfolding get_secret get_secret_by_name
get_secret-create_secret c sound e reader other w name value description {s} done same differs
      fine =
    let w' = (create_secret c name value description e w).1 in
    let (key, derived, opens, owner, named, new_one, stored) =
      create_secret-Kept c sound e w name value description done in
    let derived' : derive_key c s.user_id ≡ ok key = rw owner derived in
    let mine : (get_secret_by_id s.id reader w').0 ≡ ok s =
      read_by_id reader w' w.tables s fine (same ∙ sym owner) stored new_one in
    let by_name : (get_secret_row_by_name name reader w').0 ≡ ok s =
      read_by_name reader w' w.tables s name fine (same ∙ sym owner) named stored new_one in
    let first = bind-first (get_secret_by_id s.id) (open_secret c) reader w' s mine in
    let second = bind-first (get_secret_row_by_name name) (open_secret c) reader w' s by_name in
    (
      rw first (open_secret_lem c reader _ s key value derived' opens),
      rw second (open_secret_lem c reader _ s key value derived' opens),
      (bind-err (get_secret_by_id s.id) (open_secret c) other w'
          (foreign_read other w' w.tables s (λ e. differs (e ∙ owner)) stored new_one)).0,
    )
