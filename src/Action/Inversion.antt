-- ===== src/Action/Inversion.antt =====
-- What a successful or failed action says of its parts.
use thecloud.Prelude.{suc, false, ◌≡◌, refl, arith}
use thecloud.Errors.{Error}
use thecloud.Action.Defs.{
  Result, ok, err, is_ok, World, Env, Action, ◌>>=◌, resume, call, transaction,
}

-- The world with one more tick.
abbrev pub bump : {S : Type 0} → World S → World S
bump w = record w { tick = suc w.tick }

module _ {S A B : Type 0} where
  -- The state in which the rest of a successful block ran, and its first result.
  pub bind-ok :
      (m : Action S A) (f : A → Action S B) (e : Env) (w : World S) {b : B}
      → ((m >>= f) e w).0 ≡ ok b
      → (a : A) × ((m e w).0 ≡ ok a) × ((m >>= f) e w ≡ f a e (m e w).1)
  bind-ok m f e w h = go (m e w) h
    where
      go :
          (o : Result A × World S) {b : B}
          → (resume f e o).0 ≡ ok b
          → (a : A) × (o.0 ≡ ok a) × (resume f e o ≡ f a e o.1)
      go (ok a, w') h = (a, refl, refl)
      go (err x, w') h = cc

module _ {S A : Type 0} where
  -- A call that returned did not fail, and is its function on the tables.
  pub call-ok :
      (f : S → Result A × S) (e : Env) (w : World S) {a : A}
      → (call f e w).0 ≡ ok a
      → ((f w.tables).0 ≡ ok a)
        × ((call f e w).1 ≡ record w { tables = (f w.tables).1; tick = suc w.tick })
  call-ok f e w h = ground arith

  -- A transaction that returned has run its statements to the end.
  pub transaction-ok :
      (m : Action S A) (e : Env) (w : World S) {a : A}
      → (transaction m e w).0 ≡ ok a
      → ((m e (bump w)).0 ≡ ok a) × ((transaction m e w).1.tables ≡ (m e (bump w)).1.tables)
  transaction-ok m e w h = ground arith

  -- A transaction that failed has changed nothing.
  pub transaction-err :
      (m : Action S A) (e : Env) (w : World S) {x : Error}
      → (transaction m e w).0 ≡ err x
      → (transaction m e w).1.tables ≡ w.tables
  transaction-err m e w h = ground arith

module _ {S A B : Type 0} where
  -- A block ends with the failure of its first action.
  pub bind-err :
      (m : Action S A) (f : A → Action S B) (e : Env) (w : World S)
      → is_ok (m e w).0 ≡ false
      → (is_ok ((m >>= f) e w).0 ≡ false) × (((m >>= f) e w).1 ≡ (m e w).1)
  bind-err m f e w h = go (m e w) h
    where
      go :
          (o : Result A × World S)
          → is_ok o.0 ≡ false
          → (is_ok (resume f e o).0 ≡ false) × ((resume f e o).1 ≡ o.1)
      go (ok a, w') h = cc
      go (err x, w') h = (refl, refl)

  -- A block goes on with the result of its first action.
  pub bind-first :
      (m : Action S A) (f : A → Action S B) (e : Env) (w : World S) (a : A)
      → (m e w).0 ≡ ok a
      → (m >>= f) e w ≡ f a e (m e w).1
  bind-first m f e w a h = go (m e w) h
    where
      go : (o : Result A × World S) → o.0 ≡ ok a → resume f e o ≡ f a e o.1
      go (ok x, w') h = ground (arith, h)
      go (err x, w') h = cc
