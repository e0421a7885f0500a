-- ===== src/Iam/Keys.antt =====
-- API keys: internal/core/services/identity.go and the middleware `Auth`.
use mathlib.Core.Bool.{false≢true}
use thecloud.Prelude.{
  sym, ◌∙◌, ==→eq, ◌||◌, any-or_false, find?-keep_last, ℕ, suc, false, Option, none, some, List, [],
  ◌∷◌, ◌++◌, Text, text, find?, keep, any, any-find?, find?-keep-not, not, text_eq, text_eq_refl,
  ◌≡◌, ◌≢◌, inl, inr, arith, Bool-cases, Option-cases, ◌==◌,
}
use thecloud.Action.{is_ok, ok, World, Env}
use thecloud.Iam.Types.{ApiKey, Crypto, Tables}
use thecloud.Iam.Identity.{create_key, revoke_key, rotate_key}
use thecloud.Iam.Http.{auth, next}

abbrev pub find_key : ℕ → Tables → Option ApiKey
find_key id t = find? (λ (k : ApiKey). k.id == id) t.api_keys

abbrev pub find_secret : Text → Tables → Option ApiKey
find_secret key t = find? (λ (k : ApiKey). text_eq k.key key) t.api_keys

module _ (c : Crypto) (e : Env) (w : World Tables) where
  -- Neither revoking nor rotating touches a key of another user: both fail and no table changes.
  pub foreign_key_safe :
      (user id : ℕ) {k : ApiKey}
      → find_key id w.tables ≡ some k
      → k.user_id ≢ user
      → (is_ok (revoke_key user id e w).0 ≡ false)
        × ((revoke_key user id e w).1.tables ≡ w.tables)
        × (is_ok (rotate_key c user id e w).0 ≡ false)
        × ((rotate_key c user id e w).1.tables ≡ w.tables)
  unfolding revoke_key rotate_key
  foreign_key_safe user id found other = (ground arith, ground arith, ground arith, ground arith)

  -- A successful revocation was asked for by the key's owner and removes the key: no row has its
  -- identifier afterwards.
  pub revoke_key-find_key :
      (user id : ℕ)
      → (revoke_key user id e w).0 ≡ ok tt
      → (k : ApiKey) × (find_key id w.tables ≡ some k)
        × (k.user_id ≡ user)
        × (find_key id (revoke_key user id e w).1.tables ≡ none)
  unfolding revoke_key
  revoke_key-find_key user id done = elim (Option-cases (find_key id w.tables)) [
    | inl missing ↦ ground arith
    | inr (k, found) ↦ (
      k,
      found,
      ground arith,
      ground (arith, find?-keep-not (λ (k : ApiKey). k.id == id) w.tables.api_keys),
    )
  ]

  -- What `CreateKey` appended, if it succeeded.
  create_key_lem :
      (user : ℕ) (name : Text) (k : ApiKey)
      → (create_key c user name e w).0 ≡ ok k
      → (k.user_id ≡ user)
        × (any (λ (j : ApiKey). j.id == k.id || text_eq j.key k.key) w.tables.api_keys ≡ false)
        × ((create_key c user name e w).1.tables
            ≡ record w.tables { api_keys = w.tables.api_keys ++ k ∷ [] })
  unfolding create_key
  create_key_lem user name k done = ground arith

  -- `Auth` hands a request on exactly for the user who owns the key that the request shows.
  pub auth-next :
      (key : Text) (user : ℕ)
      → (auth key e w).0 ≡ next user
      → (k : ApiKey) × (find_secret key w.tables ≡ some k) × (k.user_id ≡ user)
  unfolding auth
  auth-next [] user h = ground arith
  auth-next (b ∷ key) user h = ground arith

module _ (c : Crypto) (e : Env) (w : World Tables) (quiet : (n : ℕ) → e.fails n ≡ false) where
  abbrev name_after : ApiKey → Text
  name_after old = old.name ++ text " (rotated)"

  abbrev at_create : World Tables
  at_create = record w { tick = suc w.tick }

  -- The rotation is the creation of the new key and the deletion of the old one.
  rotate_key_steps :
      (user id : ℕ) (k old : ApiKey)
      → find_key id w.tables ≡ some old
      → (rotate_key c user id e w).0 ≡ ok k
      → ((create_key c user (name_after old) e at_create).0 ≡ ok k)
        × ((rotate_key c user id e w).1.tables.api_keys
            ≡ keep
                (λ (j : ApiKey). not (j.id == id))
                (create_key c user (name_after old) e at_create).1.tables.api_keys)
  unfolding rotate_key
  rotate_key_steps user id k old found done =
      ground (arith, quiet w.tick, quiet (create_key c user (name_after old) e at_create).1.tick)

  rotate_key_found :
      (user id : ℕ) (k : ApiKey)
      → (rotate_key c user id e w).0 ≡ ok k
      → (old : ApiKey) × (find_key id w.tables ≡ some old)
  unfolding rotate_key
  rotate_key_found user id k done = ground (arith, quiet w.tick)

  -- In rows that hold `id` and neither the identifier nor the secret of `k`, appending `k` and
  -- deleting `id` leaves `k` to be found and `id` not.
  replace_row :
      (rows : List ApiKey) (id : ℕ) (k old : ApiKey)
      → find? (λ (j : ApiKey). j.id == id) rows ≡ some old
      → any (λ (j : ApiKey). j.id == k.id || text_eq j.key k.key) rows ≡ false
      → (let rows' = keep (λ (j : ApiKey). not (j.id == id)) (rows ++ k ∷ []) in
          (find? (λ (j : ApiKey). j.id == id) rows' ≡ none)
          × (find? (λ (j : ApiKey). text_eq j.key k.key) rows' ≡ some k))
  replace_row rows id k old found absent =
      let (no_id, no_key) =
        any-or_false (λ (j : ApiKey). j.id == k.id) (λ j. text_eq j.key k.key) rows absent in
      (
        find?-keep-not (λ (j : ApiKey). j.id == id) (rows ++ k ∷ []),
        find?-keep_last (λ (j : ApiKey). text_eq j.key k.key) (λ j. not (j.id == id)) rows k no_key
            (text_eq_refl k.key)
            (elim (Bool-cases (k.id == id)) [
              | inl same ↦ absurd (
                  false≢true (
                    sym no_id
                    ∙ rw (==→eq k.id id same) (any-find? (λ (j : ApiKey). j.id == id) rows found)))
              | inr other ↦ rw other
            ]),
      )

  -- With no failing call, a rotation that returns a key has made it the key that is found under
  -- its secret, for the same user, and the old key is gone.
  pub rotate_key-replaces :
      (user id : ℕ) {k : ApiKey}
      → (rotate_key c user id e w).0 ≡ ok k
      → (k.user_id ≡ user)
        × (find_key id (rotate_key c user id e w).1.tables ≡ none)
        × (find_secret k.key (rotate_key c user id e w).1.tables ≡ some k)
  rotate_key-replaces user id {k} done =
      let (old, found) = rotate_key_found user id k done in
      let (created, rows) = rotate_key_steps user id k old found done in
      let (owner, absent, appended) =
        create_key_lem c e at_create user (name_after old) k created in
      let (gone, here) = replace_row w.tables.api_keys id k old found absent in
      (owner, rw (rows, appended) gone, rw (rows, appended) here)
