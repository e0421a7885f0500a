-- ===== src/Action/Defs.antt =====
-- Every call that leaves the program (the database, the container engine, the clock, the source of
-- identifiers) advances `tick`. The environment says at each tick whether the call fails, what the
-- clock shows and what the next random identifier is. The tables come back after an error too,
-- since what was written stays written.
use thecloud.Prelude.{ℕ, suc, String, Bool, true, false, List, ◌∷◌, if◌then◌else◌}
use thecloud.Errors.{Error, plain}

pub data Result {ℓ} (A : Type ℓ) : Type ℓ where
  ok : A → Result A
  err : Error → Result A

abbrev pub is_ok {ℓ} : {A : Type ℓ} → Result A → Bool
is_ok (ok a) = true
is_ok (err x) = false

-- A row that `EventService.RecordEvent` or `AuditService.Log` has written.
pub record Entry : Type 0 where
  pub label : String
  pub user : ℕ
  pub resource : ℕ

pub record World (S : Type 0) : Type 0 where
  pub tables : S
  pub journal : List Entry
  pub tick : ℕ

-- What the program does not decide. `user` is the user of the request's context, and `clock` is
-- in seconds.
pub record Env : Type 0 where
  pub fails : ℕ → Bool
  pub clock : ℕ → ℕ
  pub fresh : ℕ → ℕ
  pub user : ℕ

-- `uuid.Nil`.
abbrev pub nil_id : ℕ
nil_id = 0

abbrev pub Action : Type 0 → Type 0 → Type 0
Action S A = Env → World S → Result A × World S

abbrev pub Done : Type 0
Done = Unit {0}

module _ {S A : Type 0} where
  abbrev pub pure : A → Action S A
  pure a e w = (ok a, w)

  abbrev pub raise : Error → Action S A
  raise x e w = (err x, w)

  abbrev pub ask : (Env → A) → Action S A
  ask f e w = (ok (f e), w)

  -- The program's own memory: no call leaves the program.
  abbrev pub gets : (S → A) → Action S A
  gets f e w = (ok (f w.tables), w)

  -- A call of the database or of a backend: it fails, with no effect, or runs on the tables.
  abbrev pub call : (S → Result A × S) → Action S A
  call f e w =
      let next = record w { tick = suc w.tick } in
      if e.fails w.tick
      then (err plain, next)
      else (let (r, t) = f w.tables in (r, record next { tables = t }))

  -- A statement that reads the database's clock, `NOW()`. One clock serves the program and the
  -- database.
  abbrev pub call_at : (ℕ → S → Result A × S) → Action S A
  call_at f e w = call (f (e.clock w.tick)) e w

  -- The same under another context: `appcontext.WithUserID`.
  abbrev pub with_user : ℕ → Action S A → Action S A
  with_user u m e w = m (record e { user = u }) w

-- The rest of a block after its first action.
abbrev pub resume :
    {S A B : Type 0} → (A → Action S B) → Env → Result A × World S → Result B × World S
resume f e (ok a, w) = f a e w
resume f e (err x, w) = (err x, w)

infixl 5 ◌>>=◌ ◌>>◌
abbrev pub ◌>>=◌ : {S A B : Type 0} → Action S A → (A → Action S B) → Action S B
◌>>=◌ m f e w = resume f e (m e w)

abbrev pub ◌>>◌ : {S A B : Type 0} → Action S A → Action S B → Action S B
m >> k = m >>= λ _. k

-- `if err := m(); err != nil { … }`, where the code goes on: the error as a value.
abbrev pub attempt : {S A : Type 0} → Action S A → Action S (Result A)
attempt m e w = let (r, w') = m e w in (ok r, w')

-- `_ = m()`.
abbrev pub ignore : {S A : Type 0} → Action S A → Action S Done
ignore m e w = (ok tt, (m e w).1)

-- `errors.Wrap` or `fmt.Errorf` round a failure.
abbrev pub map_error : {S A : Type 0} → (Error → Error) → Action S A → Action S A
map_error g m e w = let (r, w') = m e w in (elim r [ ok a ↦ ok a | err x ↦ err (g x) ], w')

module _ {S : Type 0} where
  abbrev pub raise_if : Bool → Error → Action S Done
  raise_if b x e w = (if b then err x else ok tt, w)

  abbrev pub update : (S → S) → Action S Done
  update f e w = (ok tt, record w { tables = f w.tables })

  abbrev pub when : Bool → Action S Done → Action S Done
  when b m e w = if b then m e w else (ok tt, w)

  -- `uuid.New()` and `time.Now()`.
  abbrev pub new_id : Action S ℕ
  new_id e w = (ok (e.fresh w.tick), record w { tick = suc w.tick })

  abbrev pub now : Action S ℕ
  now e w = (ok (e.clock w.tick), record w { tick = suc w.tick })

  -- `RecordEvent` and `Log` insert one row; every caller drops their error.
  abbrev pub note : String → ℕ → ℕ → Action S Done
  note label user resource e w =
      let next = record w { tick = suc w.tick } in
      (
        ok tt,
        if e.fails w.tick then next else record next {
          journal = record { label = label; user = user; resource = resource } ∷ w.journal;
        },
      )

module _ {S A : Type 0} where
  -- The tables as they were, where a transaction did not reach its commit.
  abbrev pub roll_back : S → Result A × World S → Result A × World S
  roll_back s (ok a, w) = (ok a, w)
  roll_back s (err x, w) = (err x, record w { tables = s })

  -- `Begin`, the statements, `Commit`, and `Rollback` on every way out before it.
  abbrev pub transaction : Action S A → Action S A
  transaction m e w = roll_back w.tables (
      (do
        call {S = S} {A = Done} (λ s. (ok tt, s))
        a ← m
        call {S = S} {A = Done} (λ s. (ok tt, s))
        pure a)
        e w)
