-- ===== src/Prelude/Keys.antt =====
-- Tables with a key: a list whose elements have different numbers, and searches by that number.
use Prim.Native.Nat.{ℕ}
use mathlib.Core.Path.{◌≡◌, refl, ◌∙◌}
use mathlib.Core.Logic.{inl, inr}
use mathlib.Core.Bool.{Bool, true, false}
use mathlib.Core.List.{List, [], ◌∷◌, ◌++◌}
use mathlib.Core.Option.{none, some}
use native.Mathlib.Omega.{arith}
use thecloud.Prelude.Tests.{◌==◌, if◌then◌else◌, Bool-cases}
use thecloud.Prelude.Lists.{keep, find?, modify, any, any-find?, All}

module _ {ℓ} {A : Type ℓ} where
  pub find?-append :
      (p : A → Bool) (xs ys : List A)
      → find? p (xs ++ ys) ≡ (elim (find? p xs) [ none ↦ find? p ys | some x ↦ some x ])
  find?-append p [] ys = refl
  find?-append p (x ∷ xs) ys = ground (arith, find?-append p xs ys)

  pub any-keep : (p q : A → Bool) (xs : List A) → any q xs ≡ false → any q (keep p xs) ≡ false
  any-keep p q [] h = refl
  any-keep p q (x ∷ xs) h = ground (arith, any-keep p q xs)

  pub find?-none : (p : A → Bool) (xs : List A) → any p xs ≡ false → find? p xs ≡ none
  find?-none p [] h = refl
  find?-none p (x ∷ xs) h = ground (arith, find?-none p xs)

module _ {ℓ} {A : Type ℓ} (key : A → ℕ) where
  abbrev pub has_key : ℕ → A → Bool
  has_key k x = key x == k

  -- No two elements have one key.
  abbrev pub Keyed : List A → Type 0
  Keyed [] = Unit
  Keyed (x ∷ xs) = (any (has_key (key x)) xs ≡ false) × Keyed xs

  pub Keyed-keep : (p : A → Bool) (xs : List A) → Keyed xs → Keyed (keep p xs)
  Keyed-keep p [] h = tt
  Keyed-keep p (x ∷ xs) h = elim (Bool-cases (p x)) [
    | inl pass ↦ rw pass (any-keep p (has_key (key x)) xs h.0, Keyed-keep p xs h.1)
    | inr fail ↦ rw fail (Keyed-keep p xs h.1)
  ]

  any-modify :
      (q : A → Bool) (f : A → A) (k : ℕ) (xs : List A)
      → ((x : A) → key (f x) ≡ key x)
      → any (has_key k) (modify q f xs) ≡ any (has_key k) xs
  any-modify q f k [] same = refl
  any-modify q f k (x ∷ xs) same = ground (arith, same x, any-modify q f k xs same)

  pub Keyed-modify :
      (q : A → Bool) (f : A → A) (xs : List A)
      → ((x : A) → key (f x) ≡ key x)
      → Keyed xs
      → Keyed (modify q f xs)
  Keyed-modify q f [] same h = tt
  Keyed-modify q f (x ∷ xs) same h = elim (Bool-cases (q x)) [
    | inl hit ↦
        rw hit (rw (same x) (any-modify q f (key x) xs same ∙ h.0), Keyed-modify q f xs same h.1)
    | inr miss ↦ rw miss (any-modify q f (key x) xs same ∙ h.0, Keyed-modify q f xs same h.1)
  ]

  any-snoc :
      (k : ℕ) (xs : List A) (y : A)
      → any (has_key k) xs ≡ false
      → has_key k y ≡ false
      → any (has_key k) (xs ++ y ∷ []) ≡ false
  any-snoc k [] y h new = ground arith
  any-snoc k (x ∷ xs) y h new = ground (arith, any-snoc k xs y)

  pub Keyed-snoc :
      (xs : List A) (y : A) → Keyed xs → any (has_key (key y)) xs ≡ false → Keyed (xs ++ y ∷ [])
  Keyed-snoc [] y h new = (refl, tt)
  Keyed-snoc (x ∷ xs) y h new =
      (any-snoc (key x) xs y h.0 (ground arith), Keyed-snoc xs y h.1 (ground arith))

  -- In a table with a key a filter keeps the row that is found, or there is none.
  pub find?-keep-Keyed :
      (k : ℕ) (p : A → Bool) (xs : List A)
      → Keyed xs
      → find? (has_key k) (keep p xs)
        ≡ (elim (find? (has_key k) xs) [ none ↦ none | some x ↦ if p x then some x else none ])
  find?-keep-Keyed k p [] h = refl
  find?-keep-Keyed k p (x ∷ xs) h = elim (Bool-cases (has_key k x)) [
    | inl hit ↦
        let e : key x ≡ k = ground arith in
        let gone : find? (has_key k) (keep p xs) ≡ none =
          find?-none (has_key k) (keep p xs) (any-keep p (has_key k) xs (rw e at h.0)) in
        ground (arith, gone)
    | inr miss ↦ ground (arith, find?-keep-Keyed k p xs h.1)
  ]

  -- A row of a table with a key is found by its own.
  find?-cons :
      (x : A) (xs ys : List A)
      → any (has_key (key x)) ys ≡ false
      → All (λ y. find? (has_key (key y)) xs ≡ some y) ys
      → All (λ y. find? (has_key (key y)) (x ∷ xs) ≡ some y) ys
  find?-cons x xs [] h all = tt
  find?-cons x xs (y ∷ ys) h all = (ground (arith, all.0), find?-cons x xs ys (ground arith) all.1)

  pub find?-self : (xs : List A) → Keyed xs → All (λ y. find? (has_key (key y)) xs ≡ some y) xs
  find?-self [] h = tt
  find?-self (x ∷ xs) h = (ground arith, find?-cons x xs xs h.0 (find?-self xs h.1))

  -- A row that some search finds is the one with its key.
  pub find?-key :
      (p : A → Bool) (xs : List A) (x : A)
      → Keyed xs
      → find? p xs ≡ some x
      → find? (has_key (key x)) xs ≡ some x
  find?-key p [] x h found = cc
  find?-key p (y ∷ ys) x h found = elim (Bool-cases (p y)) [
    | inl hit ↦ ground arith
    | inr miss ↦
        let later : find? p ys ≡ some x = ground arith in
        let there : any (has_key (key x)) ys ≡ true =
          any-find? (has_key (key x)) ys {x = x} (find?-key p ys x h.1 later) in
        ground (arith, h.0, there, find?-key p ys x h.1 later)
  ]
