-- ===== src/Iam/Lockout.antt =====
-- The lockout of internal/core/services/auth.go.
use thecloud.Prelude.{
  ℕ, suc, ◌+◌, ◌≤◌, ◌<◌, false, none, some, List, [], ◌∷◌, Text, lookup, leb, find?, All, text_eq,
  ◌≡◌, refl, arith, lookup-insert_self, Option, ◌*◌, if◌then◌else◌,
}
use thecloud.Errors.{new, unauthorized}
use thecloud.Action.{Result, ok, err, World, Env}
use thecloud.Iam.Types.{User, Crypto, Tables}
use thecloud.Iam.Repo.{get_by_email}
use thecloud.Iam.Auth.{count_of, increment_failure, check_lockout, verify_password, login}

module _ (c : Crypto) (e : Env) (email : Text) where
  -- While an account is locked every login is refused, with the right password too, before any
  -- table is read: only the clock is.
  pub login_locked :
      (w : World Tables) (password : Text) {until : ℕ}
      → lookup email w.tables.lockouts ≡ some until
      → e.clock w.tick < until
      → login c email password e w ≡ (err (new unauthorized), record w { tick = suc w.tick })
  unfolding login check_lockout
  login_locked w password locked early = ground arith

module _ (c : Crypto) (e : Env) (email : Text) where
  -- The password fits no user of the table with this email.
  abbrev pub Refuted : Tables → Text → Type 0
  Refuted t password =
      (u : User)
      → find? (λ (v : User). text_eq v.email email) t.users ≡ some u
      → c.matches u.password_hash password ≡ false

  abbrev pub failures : World Tables → ℕ
  failures w = count_of (lookup email w.tables.failed_attempts)

  abbrev pub lock_of : World Tables → Option ℕ
  lock_of w = lookup email w.tables.lockouts

  -- The lock after so many failures, the last one counted at a tick.
  abbrev lock_at : ℕ → ℕ → Option ℕ
  lock_at count n = if leb 5 count then some (e.clock n + 15 * 60) else none

  increment_failure_ok : (w : World Tables) → (increment_failure email e w).0 ≡ ok tt
  unfolding increment_failure
  increment_failure_ok w = ground arith

  increment_failure_lem :
      (w : World Tables)
      → lookup email w.tables.lockouts ≡ none
      → (let w' = (increment_failure email e w).1 in
          (failures w' ≡ failures w + 1)
          × (lock_of w' ≡ lock_at (failures w + 1) w.tick)
          × (w'.tables.users ≡ w.tables.users)
          × (w.tick ≤ w'.tick))
  unfolding increment_failure
  increment_failure_lem w free = ground (
    arith,
    lookup-insert_self email (failures w + 1) w.tables.failed_attempts,
    lookup-insert_self email (e.clock w.tick + 900) w.tables.lockouts,
  )

  verify_refuted :
      (r : Result User) (password : Text) (w : World Tables)
      → ((u : User) → r ≡ ok u → c.matches u.password_hash password ≡ false)
      → verify_password c email password r e w
        ≡ (err (new unauthorized), (increment_failure email e w).1)
  unfolding verify_password
  verify_refuted (err x) password w bad = ground (arith, increment_failure_ok w)
  verify_refuted (ok u) password w bad = rw (bad u refl) (ground (arith, increment_failure_ok w))

  get_by_email_state :
      (w : World Tables) → (get_by_email email e w).1 ≡ record w { tick = suc w.tick }
  unfolding get_by_email
  get_by_email_state w = ground arith

  get_by_email_found :
      (w : World Tables) (u : User)
      → (get_by_email email e w).0 ≡ ok u
      → find? (λ (v : User). text_eq v.email email) w.tables.users ≡ some u
  unfolding get_by_email
  get_by_email_found w u h = ground arith

  login-Refuted_steps :
      (w : World Tables) (password : Text)
      → lookup email w.tables.lockouts ≡ none
      → Refuted w.tables password
      → login c email password e w
        ≡ (err (new unauthorized), (increment_failure email e (record w { tick = suc w.tick })).1)
  unfolding login check_lockout
  login-Refuted_steps w password free bad =
      rw (free, login)
        (rw get_by_email_state (
          verify_refuted (get_by_email email e w).0 password (record w { tick = suc w.tick })
            (λ u h. bad u (get_by_email_found w u h))))

  -- A login with a password that fits no user, while the account is not locked, is refused,
  -- counts one more failure, and locks the account for 15 minutes exactly if that makes five.
  pub login-Refuted :
      (w : World Tables) (password : Text)
      → lookup email w.tables.lockouts ≡ none
      → Refuted w.tables password
      → (let (r, w') = login c email password e w in
          (r ≡ err (new unauthorized))
          × (failures w' ≡ failures w + 1)
          × (lock_of w' ≡ lock_at (failures w + 1) (suc w.tick))
          × (w'.tables.users ≡ w.tables.users)
          × (suc w.tick ≤ w'.tick))
  login-Refuted w password free bad =
      let (counted, locked, same, later) =
        increment_failure_lem (record w { tick = suc w.tick }) free in
      rw (login-Refuted_steps w password free bad) (refl, counted, locked, same, later)

  -- The tables after one login for each password of a list.
  abbrev pub logins : List Text → World Tables → World Tables
  logins [] w = w
  logins (p ∷ ps) w = logins ps (login c email p e w).1

  abbrev pub AllRefuted : Tables → List Text → Type 0
  AllRefuted t = All (Refuted t)
