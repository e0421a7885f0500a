-- ===== src/Action/Triples.antt =====
-- Triples over the tables, one rule for each way to build an action. The postcondition sees the
-- result, so it also says what holds after an error.
use thecloud.Prelude.{
  ℕ, String, Bool, true, false, Option, none, some, ◌≡◌, refl, inl, inr, Bool-cases, if◌then◌else◌,
}
use thecloud.Errors.{Error, plain}
use thecloud.Action.Defs.{
  Result, ok, err, World, Env, Action, Done, pure, raise, ask, call, with_user, resume, ◌>>=◌,
  attempt, ignore, map_error, raise_if, when, new_id, now, note,
}

pub record Triple {S A : Type 0} (e : Env) (P : S → Type 0) (m : Action S A)
    (Q : Result A → S → Type 0) : Type 0 where
  pub at : (w : World S) → P w.tables → Q (m e w).0 (m e w).1.tables

-- `m` keeps `P`, whether it returns or fails.
abbrev pub Keeps : {S A : Type 0} → Env → (S → Type 0) → Action S A → Type 0
Keeps e P m = Triple e P m (λ r s. P s)

module _ {S A : Type 0} {e : Env} {P : S → Type 0} {Q : Result A → S → Type 0} where
  pub Triple-pure : (a : A) → ((s : S) → P s → Q (ok a) s) → Triple e P (pure a) Q
  Triple-pure a h = record { at = λ w p. h w.tables p }

  pub Triple-raise : (x : Error) → ((s : S) → P s → Q (err x) s) → Triple e P (raise x) Q
  Triple-raise x h = record { at = λ w p. h w.tables p }

  pub Triple-ask : (f : Env → A) → ((s : S) → P s → Q (ok (f e)) s) → Triple e P (ask f) Q
  Triple-ask f h = record { at = λ w p. h w.tables p }

  pub Triple-call :
      (f : S → Result A × S)
      → ((s : S) → P s → Q (err plain) s)
      → ((s : S) → P s → Q (f s).0 (f s).1)
      → Triple e P (call f) Q
  Triple-call f lost done = record {
    at = λ w p. elim (Bool-cases (e.fails w.tick)) [
      | inl failed ↦ rw failed (lost w.tables p)
      | inr fine ↦ rw fine (done w.tables p)
    ];
  }

  pub Triple-with_user :
      (u : ℕ) (m : Action S A) → Triple (record e { user = u }) P m Q → Triple e P (with_user u m) Q
  Triple-with_user u m t = record { at = λ w p. t.at w p }

  pub Triple-weaken :
      {P' : S → Type 0} {Q' : Result A → S → Type 0} (m : Action S A)
      → Triple e P' m Q'
      → ((s : S) → P s → P' s)
      → ((r : Result A) (s : S) → Q' r s → Q r s)
      → Triple e P m Q
  Triple-weaken m t pre post = record { at = λ w p. post _ _ (t.at w (pre w.tables p)) }

  pub Triple-if :
      (b : Bool) (m n : Action S A)
      → (b ≡ true → Triple e P m Q)
      → (b ≡ false → Triple e P n Q)
      → Triple e P (if b then m else n) Q
  Triple-if true m n tm tn = record { at = λ w p. (tm refl).at w p }
  Triple-if false m n tm tn = record { at = λ w p. (tn refl).at w p }

module _ {S A B : Type 0} {e : Env} {P : S → Type 0} {Q : Result B → S → Type 0} where
  pub Triple-bind :
      (R : Result A → S → Type 0) (m : Action S A) (f : A → Action S B)
      → Triple e P m R
      → ((x : Error) (s : S) → R (err x) s → Q (err x) s)
      → ((a : A) → Triple e (R (ok a)) (f a) Q)
      → Triple e P (m >>= f) Q
  Triple-bind R m f tm lost tf = record { at = λ w p. go (m e w) (tm.at w p) }
    where
      go : (o : Result A × World S) → R o.0 o.1.tables → Q (resume f e o).0 (resume f e o).1.tables
      go (ok a, w) h = (tf a).at w h
      go (err x, w) h = lost x w.tables h

module _ {S A : Type 0} {e : Env} {P : S → Type 0} where
  pub Keeps-attempt : (m : Action S A) → Keeps e P m → Keeps e P (attempt m)
  Keeps-attempt m k = record { at = λ w p. k.at w p }

  pub Keeps-ignore : (m : Action S A) → Keeps e P m → Keeps e P (ignore m)
  Keeps-ignore m k = record { at = λ w p. k.at w p }

  pub Keeps-map_error :
      (g : Error → Error) (m : Action S A) → Keeps e P m → Keeps e P (map_error g m)
  Keeps-map_error g m k = record { at = λ w p. k.at w p }

  pub Keeps-ask : (f : Env → A) → Keeps {S = S} e P (ask f)
  Keeps-ask f = record { at = λ w p. p }

  pub Keeps-option :
      {B : Type 0} (o : Option B) (m : Action S A) (f : B → Action S A)
      → Keeps e P m
      → ((b : B) → Keeps e P (f b))
      → Keeps e P (elim o [ none ↦ m | some b ↦ f b ])
  Keeps-option none m f km kf = km
  Keeps-option (some b) m f km kf = kf b

  pub Keeps-result :
      {B : Type 0} (r : Result B) (f : B → Action S A) (g : Error → Action S A)
      → ((b : B) → Keeps e P (f b))
      → ((x : Error) → Keeps e P (g x))
      → Keeps e P (elim r [ ok b ↦ f b | err x ↦ g x ])
  Keeps-result (ok b) f g kf kg = kf b
  Keeps-result (err x) f g kf kg = kg x

  pub Keeps-read : (f : S → Result A) → Keeps e P (call (λ s. (f s, s)))
  Keeps-read f = Triple-call (λ s. (f s, s)) (λ s p. p) (λ s p. p)

  pub Keeps-write : (f : S → Result A × S) → ((s : S) → P s → P (f s).1) → Keeps e P (call f)
  Keeps-write f h = Triple-call f (λ s p. p) h

module _ {S A B : Type 0} {e : Env} {P : S → Type 0} where
  pub Keeps-bind :
      (m : Action S A) (f : A → Action S B)
      → Keeps e P m
      → ((a : A) → Keeps e P (f a))
      → Keeps e P (m >>= f)
  Keeps-bind m f km kf = Triple-bind (λ r s. P s) m f km (λ x s p. p) kf

module _ {S : Type 0} {e : Env} {P : S → Type 0} where
  pub Keeps-raise_if : (b : Bool) (x : Error) → Keeps e P (raise_if b x)
  Keeps-raise_if b x = record { at = λ w p. p }

  pub Keeps-when : (b : Bool) (m : Action S Done) → Keeps e P m → Keeps e P (when b m)
  Keeps-when true m k = record { at = λ w p. k.at w p }
  Keeps-when false m k = record { at = λ w p. p }

  pub Keeps-new_id : Keeps {S = S} e P new_id
  Keeps-new_id = record { at = λ w p. p }

  pub Keeps-now : Keeps {S = S} e P now
  Keeps-now = record { at = λ w p. p }

  pub Keeps-note : (label : String) (user resource : ℕ) → Keeps e P (note label user resource)
  Keeps-note label user resource = record {
    at = λ w p. elim (Bool-cases (e.fails w.tick)) [
      | inl failed ↦ rw failed p
      | inr fine ↦ rw fine p
    ];
  }

-- `m` leads from `P` to `Q`, whether it returns or fails.
abbrev pub Leads : {S A : Type 0} → Env → (S → Type 0) → (S → Type 0) → Action S A → Type 0
Leads e P Q m = Triple e P m (λ r s. Q s)

module _ {S A : Type 0} {e : Env} {P Q : S → Type 0} where
  pub Leads-map_error :
      (g : Error → Error) (m : Action S A) → Leads e P Q m → Leads e P Q (map_error g m)
  Leads-map_error g m k = record { at = λ w p. k.at w p }

  pub Leads-ignore : (m : Action S A) → Leads e P Q m → Leads e P Q (ignore m)
  Leads-ignore m k = record { at = λ w p. k.at w p }

  pub Leads-write :
      (f : S → Result A × S)
      → ((s : S) → P s → Q s)
      → ((s : S) → P s → Q (f s).1)
      → Leads e P Q (call f)
  Leads-write f lost done = Triple-call f lost done

  pub Leads-result :
      {B : Type 0} (r : Result B) (f : B → Action S A) (g : Error → Action S A)
      → ((b : B) → Leads e P Q (f b))
      → ((x : Error) → Leads e P Q (g x))
      → Leads e P Q (elim r [ ok b ↦ f b | err x ↦ g x ])
  Leads-result (ok b) f g kf kg = kf b
  Leads-result (err x) f g kf kg = kg x

module _ {S A B : Type 0} {e : Env} {P : S → Type 0} {Q : Result B → S → Type 0} where
  -- What follows an attempt sees its result.
  pub Triple-attempt_bind :
      (R : Result A → S → Type 0) (m : Action S A) (f : Result A → Action S B)
      → Triple e P m R
      → ((r : Result A) → Triple e (R r) (f r) Q)
      → Triple e P (attempt m >>= f) Q
  Triple-attempt_bind R m f tm tf = record { at = λ w p. (tf (m e w).0).at (m e w).1 (tm.at w p) }

module _ {S A : Type 0} {e : Env} {P : S → Type 0} {Q : Result A → S → Type 0} where
  pub Triple-map_error :
      (R : Result A → S → Type 0) (g : Error → Error) (m : Action S A)
      → Triple e P m R
      → ((a : A) (s : S) → R (ok a) s → Q (ok a) s)
      → ((x : Error) (s : S) → R (err x) s → Q (err (g x)) s)
      → Triple e P (map_error g m) Q
  Triple-map_error R g m t good bad = record { at = λ w p. go (m e w) (t.at w p) }
    where
      go :
          (o : Result A × World S)
          → R o.0 o.1.tables
          → Q (elim o.0 [ ok a ↦ ok a | err x ↦ err (g x) ]) o.1.tables
      go (ok a, w) h = good a w.tables h
      go (err x, w) h = bad x w.tables h

module _ {S A B : Type 0} {e : Env} {P : S → Type 0} {Q : Result B → S → Type 0} where
  -- What is asked of the environment is known.
  pub Triple-ask_bind :
      (g : Env → A) (f : A → Action S B) → Triple e P (f (g e)) Q → Triple e P (ask g >>= f) Q
  Triple-ask_bind g f t = record { at = λ w p. t.at w p }
