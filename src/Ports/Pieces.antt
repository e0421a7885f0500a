-- ===== src/Ports/Pieces.antt =====
-- The pieces of port mappings: splitting, joining, and the mapping with a dynamic host port.
use thecloud.Prelude.{
  subst, ◌⊎◌, ℕ, ◌≤◌, false, some, List, [], ◌∷◌, ◌++◌, map, Text, text, length, All, ◌==◌, ◌≡◌,
  ◌≢◌, refl, ap, ◌∙◌, inl, inr, arith, Bool-cases, Option-cases,
}
use thecloud.Prelude.Int.{ℤ, pos, negsuc}
use thecloud.Errors.{Error}
use thecloud.Action.{Result, ok, err, Done}
use thecloud.Ports.Strings.{split, join, cons_head}
use thecloud.Ports.{parse_port, validate_parts, validate_all, dynamic_port, out_of_range, max_port}

-- A text without a byte.
abbrev pub Lacks : ℕ → Text → Type 0
Lacks b = All (λ (c : ℕ). (c == b) ≡ false)

length-cons_head : (b : ℕ) (ps : List Text) → ps ≢ [] → length (cons_head b ps) ≡ length ps
length-cons_head b [] h = absurd (h refl)
length-cons_head b (p ∷ ps) h = refl

cons_head-All :
    (P : ℕ → Type 0) (b : ℕ) (ps : List Text) → P b → All (All P) ps → All (All P) (cons_head b ps)
cons_head-All P b [] pb h = ((pb, tt), tt)
cons_head-All P b (p ∷ ps) pb h = ((pb, h.0), h.1)

-- The pieces of a text lack the separator.
pub split-Lacks : (sep : ℕ) (s : Text) → All (Lacks sep) (split sep s)
unfolding split
split-Lacks sep [] = (tt, tt)
split-Lacks sep (b ∷ s) = elim (Bool-cases (b == sep)) [
  | inl here ↦ rw here (tt, split-Lacks sep s)
  | inr other ↦
      rw other (cons_head-All (λ c. (c == sep) ≡ false) b (split sep s) other (split-Lacks sep s))
]

-- What holds of the bytes of a text holds of those of its pieces.
split-All : (P : ℕ → Type 0) (sep : ℕ) (s : Text) → All P s → All (All P) (split sep s)
unfolding split
split-All P sep [] h = (tt, tt)
split-All P sep (b ∷ s) h = elim (Bool-cases (b == sep)) [
  | inl here ↦ rw here (tt, split-All P sep s h.1)
  | inr other ↦ rw other (cons_head-All P b (split sep s) h.0 (split-All P sep s h.1))
]

-- A text without the separator is one piece.
split-one : (sep : ℕ) (s : Text) → Lacks sep s → split sep s ≡ s ∷ []
unfolding split
split-one sep [] h = refl
split-one sep (b ∷ s) h = rw (h.0, split-one sep s h.1) refl

split-append : (sep : ℕ) (p s : Text) → Lacks sep p → split sep (p ++ sep ∷ s) ≡ p ∷ split sep s
unfolding split
split-append sep [] s h = ground arith
split-append sep (b ∷ p) s h = rw (h.0, split-append sep p s h.1) refl

-- Splitting what was joined gives the pieces back.
pub split-join :
    (sep : ℕ) (p : Text) (ps : List Text)
    → All (Lacks sep) (p ∷ ps)
    → split sep (join sep (p ∷ ps)) ≡ p ∷ ps
unfolding join
split-join sep p [] h = split-one sep p h.0
split-join sep p (q ∷ ps) h =
    split-append sep p (join sep (q ∷ ps)) h.0
    ∙ ap (λ (l : List Text). p ∷ l) (split-join sep q ps h.1)

parse_port-zero : parse_port (text "0") ≡ some (pos 0)
unfolding parse_port
parse_port-zero = refl

-- What a mapping is: two ports between 0 and 65535.
abbrev pub IsPort : Text → Type 0
IsPort s = (n : ℕ) × (parse_port s ≡ some (pos n)) × (n ≤ max_port)

abbrev pub IsMapping : Text → Type 0
IsMapping p = (h : Text) × (c : Text) × (split b':' p ≡ h ∷ c ∷ []) × IsPort h × IsPort c

in_range : (p : ℤ) → out_of_range p ≡ false → (n : ℕ) × (p ≡ pos n) × (n ≤ max_port)
in_range (pos n) h = (n, refl, ground arith)
in_range (negsuc n) h = cc

pub validate_parts-IsPort : (h c : Text) → validate_parts (h ∷ c ∷ []) ≡ ok tt → IsPort h × IsPort c
unfolding validate_parts
validate_parts-IsPort h c valid = elim (Option-cases (parse_port h)) [
  | inl missing ↦ absurd (ground arith)
  | inr (host, eh) ↦ elim (Option-cases (parse_port c)) [
    | inl missing ↦ absurd (ground arith)
    | inr (container, ec) ↦
        let (m, em, lm) = in_range host (ground arith) in
        let (n, en, ln) = in_range container (ground arith) in
        ((m, eh ∙ ap some em, lm), (n, ec ∙ ap some en, ln))
  ]
]

-- A valid mapping has two parts, and stays valid when its host port becomes 0.
pub validate_parts-two :
    (ps : List Text)
    → validate_parts ps ≡ ok tt
    → (h : Text) × (c : Text) × (ps ≡ h ∷ c ∷ []) × (validate_parts (text "0" ∷ c ∷ []) ≡ ok tt)
unfolding validate_parts
validate_parts-two [] valid = cc
validate_parts-two (h ∷ []) valid = cc
validate_parts-two (h ∷ c ∷ []) valid = (h, c, refl, ground (arith, parse_port-zero))
validate_parts-two (h ∷ c ∷ d ∷ ps) valid = cc

pub Result-cases : (r : Result Done) → (r ≡ ok tt) ⊎ ((x : Error) × (r ≡ err x))
Result-cases (ok d) = inl refl
Result-cases (err x) = inr (x, refl)

-- The dynamic form of a valid mapping is valid, and brings no comma.
dynamic_port-valid :
    (p : Text)
    → Lacks b',' p
    → validate_parts (split b':' p) ≡ ok tt
    → Lacks b',' (dynamic_port p) × (validate_parts (split b':' (dynamic_port p)) ≡ ok tt)
dynamic_port-valid p clean valid =
    let (h, c, parts, zero_host) = validate_parts-two (split b':' p) valid in
    let colons : All (Lacks b':') (h ∷ c ∷ []) =
      subst (All (Lacks b':')) parts (split-Lacks b':' p) in
    let commas : All (Lacks b',') (h ∷ c ∷ []) =
      subst (All (Lacks b',')) parts (split-All (λ b. (b == b',') ≡ false) b':' p clean) in
    let image : dynamic_port p ≡ text "0:" ++ c = rw parts refl in
    (
      rw image (refl, (refl, commas.1.0)),
      rw image
          (rw (split-append b':' (text "0") c (refl, tt), split-one b':' c colons.1.0) zero_host),
    )

pub dynamic_ports-valid :
    (ps : List Text)
    → All (Lacks b',') ps
    → validate_all ps ≡ ok tt
    → All (Lacks b',') (map dynamic_port ps) × (validate_all (map dynamic_port ps) ≡ ok tt)
unfolding validate_all
dynamic_ports-valid [] clean valid = (tt, refl)
dynamic_ports-valid (p ∷ ps) clean valid = elim (Result-cases (validate_parts (split b':' p))) [
  | inl here ↦
      let rest : validate_all ps ≡ ok tt = ground (arith, here) in
      let (clean', valid') = dynamic_port-valid p clean.0 here in
      let (clean_rest, valid_rest) = dynamic_ports-valid ps clean.1 rest in
      ((clean', clean_rest), rw (valid', validate_all) valid_rest)
  | inr (x, failed) ↦ absurd (ground (arith, failed))
]
