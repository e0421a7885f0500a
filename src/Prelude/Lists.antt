-- ===== src/Prelude/Lists.antt =====
-- Lists measured by native numbers, Boolean membership, and Go strings as lists of bytes.
use Prim.Native.Nat.{ℕ, zero, suc, ◌+◌, ◌≤◌}
use Prim.Native.Char.{code}
use Prim.Native.String.{String}
use mathlib.Core.Path.{◌≡◌, refl}
use mathlib.Core.Logic.{◌≢◌, inl, inr}
use mathlib.Core.Bool.{Bool, true, false, ◌&&◌, ◌||◌, not}
use mathlib.Core.List.{List, [], ◌∷◌, ◌++◌}
use mathlib.Core.Option.{Option, none, some}
use native.Mathlib.Omega.{arith}
use thecloud.Prelude.Tests.{◌==◌, if◌then◌else◌, Bool-cases}

module _ {ℓ} {A : Type ℓ} where
  abbrev pub length : List A → ℕ
  length [] = 0
  length (x ∷ xs) = suc (length xs)

  abbrev pub take : ℕ → List A → List A
  take zero xs = []
  take (suc n) [] = []
  take (suc n) (x ∷ xs) = x ∷ take n xs

  -- The elements that pass a Boolean test.
  abbrev pub keep : (A → Bool) → List A → List A
  keep p [] = []
  keep p (x ∷ xs) = if p x then x ∷ keep p xs else keep p xs

  -- The first element that passes a Boolean test.
  abbrev pub find? : (A → Bool) → List A → Option A
  find? p [] = none
  find? p (x ∷ xs) = if p x then some x else find? p xs

  -- The list with the elements that pass a test replaced.
  abbrev pub modify : (A → Bool) → (A → A) → List A → List A
  modify p f [] = []
  modify p f (x ∷ xs) = (if p x then f x else x) ∷ modify p f xs

  -- Does some element pass the test?
  abbrev pub any : (A → Bool) → List A → Bool
  any p [] = false
  any p (x ∷ xs) = p x || any p xs

  pub length-append : (xs ys : List A) → length (xs ++ ys) ≡ length xs + length ys
  length-append [] ys = omega arith
  length-append (x ∷ xs) ys = omega (arith, length-append xs ys)

  -- A change that keeps what is searched for changes the row that is found, and no other.
  pub find?-modify :
      (p q : A → Bool) (f : A → A) (xs : List A)
      → ((x : A) → p (f x) ≡ p x)
      → find? p (modify q f xs)
        ≡ (elim (find? p xs) [ none ↦ none | some x ↦ some (if q x then f x else x) ])
  find?-modify p q f [] h = refl
  find?-modify p q f (x ∷ xs) h = ground (arith, h x, find?-modify p q f xs h)

  pub find?-true : (p : A → Bool) (xs : List A) (x : A) → find? p xs ≡ some x → p x ≡ true
  find?-true p [] x h = cc
  find?-true p (y ∷ xs) x h = ground (arith, find?-true p xs x)

  pub any-find? : (p : A → Bool) (xs : List A) {x : A} → find? p xs ≡ some x → any p xs ≡ true
  any-find? p [] h = cc
  any-find? p (y ∷ xs) {x} h = ground (arith, any-find? p xs {x = x})

  pub find?-keep-not : (p : A → Bool) (xs : List A) → find? p (keep (λ x. not (p x)) xs) ≡ none
  find?-keep-not p [] = refl
  find?-keep-not p (x ∷ xs) = ground (arith, find?-keep-not p xs)

  pub any-or_false :
      (p q : A → Bool) (xs : List A)
      → any (λ x. p x || q x) xs ≡ false
      → (any p xs ≡ false) × (any q xs ≡ false)
  any-or_false p q [] h = (refl, refl)
  any-or_false p q (x ∷ xs) h = ground (arith, any-or_false p q xs)

  -- A new last row is what a search finds, if no row before it passes the test.
  pub find?-keep_last :
      (p q : A → Bool) (xs : List A) (x : A)
      → any p xs ≡ false
      → p x ≡ true
      → q x ≡ true
      → find? p (keep q (xs ++ x ∷ [])) ≡ some x
  find?-keep_last p q [] x h hp hq = ground arith
  find?-keep_last p q (y ∷ xs) x h hp hq = ground (arith, find?-keep_last p q xs x)

  pub any-keep-not : (p : A → Bool) (xs : List A) → any p (keep (λ x. not (p x)) xs) ≡ false
  any-keep-not p [] = refl
  any-keep-not p (x ∷ xs) = ground (arith, any-keep-not p xs)

  pub keep-keep-not : (p : A → Bool) (xs : List A) → keep p (keep (λ x. not (p x)) xs) ≡ []
  keep-keep-not p [] = refl
  keep-keep-not p (x ∷ xs) = ground (arith, keep-keep-not p xs)

  pub any-append : (p : A → Bool) (xs ys : List A) → any p (xs ++ ys) ≡ (any p xs || any p ys)
  any-append p [] ys = refl
  any-append p (x ∷ xs) ys = ground (arith, any-append p xs ys)

  pub length-take_le : (n : ℕ) (xs : List A) → length (take n xs) ≤ n
  length-take_le zero xs = omega arith
  length-take_le (suc n) [] = omega arith
  length-take_le (suc n) (x ∷ xs) = omega (arith, length-take_le n xs)

module _ {ℓ κ} {A : Type ℓ} (P : A → Type κ) where
  -- A predicate on every element.
  abbrev pub All : List A → Type κ
  All [] = Unit
  All (x ∷ xs) = P x × All xs

  pub All-append : (xs ys : List A) → All xs → All ys → All (xs ++ ys)
  All-append [] ys hx hy = hy
  All-append (x ∷ xs) ys hx hy = (hx.0, All-append xs ys hx.1 hy)

-- A Go string: its bytes.
abbrev pub Text : Type 0
Text = List ℕ

-- The bytes of an ASCII literal. `String` has its own `[]` and `∷`.
abbrev pub text : String → Text
text String.[] = []
text (String.◌∷◌ c s) = code c ∷ text s

abbrev pub text_eq : Text → Text → Bool
text_eq [] [] = true
text_eq [] (b ∷ t) = false
text_eq (a ∷ s) [] = false
text_eq (a ∷ s) (b ∷ t) = (a == b) && text_eq s t

pub text_eq_refl : (s : Text) → text_eq s s ≡ true
text_eq_refl [] = refl
text_eq_refl (a ∷ s) = ground (arith, text_eq_refl s)

pub text_eq_sound : (s t : Text) → text_eq s t ≡ true → s ≡ t
text_eq_sound [] [] h = refl
text_eq_sound [] (b ∷ t) h = cc
text_eq_sound (a ∷ s) [] h = cc
text_eq_sound (a ∷ s) (b ∷ t) h = ground (arith, text_eq_sound s t)

pub text_eq-ne : (s t : Text) → s ≢ t → text_eq s t ≡ false
text_eq-ne s t ne = elim (Bool-cases (text_eq s t)) [
  | inl same ↦ absurd (ne (text_eq_sound s t same))
  | inr other ↦ other
]

-- Go maps with text keys: `m[k]` with its presence, `delete(m, k)` and `m[k] = v`.
module _ {ℓ} {V : Type ℓ} where
  abbrev pub lookup : Text → List (Text × V) → Option V
  lookup k [] = none
  lookup k (e ∷ m) = if text_eq e.0 k then some e.1 else lookup k m

  abbrev pub erase : Text → List (Text × V) → List (Text × V)
  erase k [] = []
  erase k (e ∷ m) = if text_eq e.0 k then erase k m else e ∷ erase k m

  abbrev pub insert : Text → V → List (Text × V) → List (Text × V)
  insert k v m = (k, v) ∷ erase k m

  pub lookup-erase_self : (k : Text) (m : List (Text × V)) → lookup k (erase k m) ≡ none
  lookup-erase_self k [] = refl
  lookup-erase_self k (e ∷ m) = ground (arith, lookup-erase_self k m)

  pub lookup-insert_self :
      (k : Text) (v : V) (m : List (Text × V)) → lookup k (insert k v m) ≡ some v
  lookup-insert_self k v m = rw (text_eq_refl k)

  pub lookup-erase_ne :
      (j k : Text) (m : List (Text × V)) → j ≢ k → lookup j (erase k m) ≡ lookup j m
  lookup-erase_ne j k [] ne = refl
  lookup-erase_ne j k (e ∷ m) ne =
      ground (arith, lookup-erase_ne j k m ne, text_eq_sound e.0 j, text_eq_sound e.0 k)

  pub lookup-insert_ne :
      (j k : Text) (v : V) (m : List (Text × V)) → j ≢ k → lookup j (insert k v m) ≡ lookup j m
  lookup-insert_ne j k v m ne = ground (arith, text_eq_sound k j, lookup-erase_ne j k m ne)

module _ {ℓ κ} {A : Type ℓ} (P : A → Type κ) where
  pub All-keep : (p : A → Bool) (xs : List A) → All (λ x. p x ≡ true → P x) xs → All P (keep p xs)
  All-keep p [] h = tt
  All-keep p (x ∷ xs) h = elim (Bool-cases (p x)) [
    | inl pass ↦ rw pass (h.0 pass, All-keep p xs h.1)
    | inr fail ↦ rw fail (All-keep p xs h.1)
  ]

  pub All-take : (n : ℕ) (xs : List A) → All P xs → All P (take n xs)
  All-take zero xs h = tt
  All-take (suc n) [] h = tt
  All-take (suc n) (x ∷ xs) h = (h.0, All-take n xs h.1)

  pub All-intro : (xs : List A) → ((x : A) → P x) → All P xs
  All-intro [] h = tt
  All-intro (x ∷ xs) h = (h x, All-intro xs h)

module _ {ℓ κ μ} {A : Type ℓ} (P : A → Type κ) (R : A → Type μ) where
  pub All-imp : (xs : List A) → ((x : A) → P x → R x) → All P xs → All R xs
  All-imp [] f h = tt
  All-imp (x ∷ xs) f h = (f x h.0, All-imp xs f h.1)

module _ {ℓ κ} {A : Type ℓ} (P : A → Type κ) where
  pub All-modify :
      (q : A → Bool) (f : A → A) (xs : List A)
      → ((x : A) → P x → P (f x))
      → All P xs
      → All P (modify q f xs)
  All-modify q f [] good h = tt
  All-modify q f (x ∷ xs) good h = elim (Bool-cases (q x)) [
    | inl hit ↦ rw hit (good x h.0, All-modify q f xs good h.1)
    | inr miss ↦ rw miss (h.0, All-modify q f xs good h.1)
  ]

  pub All-filter : (p : A → Bool) (xs : List A) → All P xs → All P (keep p xs)
  All-filter p xs h = All-keep P p xs (All-imp P (λ x. p x ≡ true → P x) xs (λ x good _. good) h)
