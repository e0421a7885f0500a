-- ===== src/Ports/Dynamic.antt =====
-- `parseAndValidatePorts` of internal/core/services/instance.go and `toDynamicPorts` of
-- autoscaling_worker.go.
use thecloud.Prelude.{
  ◌⊎◌, ℕ, suc, ◌≤◌, List, [], ◌∷◌, map, Text, length, All, ◌==◌, ◌≡◌, ◌≢◌, refl, sym, ap, ◌∙◌, inl,
  inr, arith, Bool-cases,
}
use thecloud.Action.{ok}
use thecloud.Ports.Strings.{split, join}
use thecloud.Ports.{
  validate_parts, validate_all, parse_and_validate_ports, dynamic_port, to_dynamic_ports,
  max_ports_per_instance,
}
use thecloud.Ports.Pieces.{
  Lacks, split-Lacks, split-join, IsMapping, validate_parts-IsPort, validate_parts-two,
  Result-cases, dynamic_ports-valid,
}

length-map : (f : Text → Text) (ps : List Text) → length (map f ps) ≡ length ps
length-map f [] = refl
length-map f (p ∷ ps) = ap suc (length-map f ps)

validate_all-IsMapping : (ps : List Text) → validate_all ps ≡ ok tt → All IsMapping ps
unfolding validate_all
validate_all-IsMapping [] valid = tt
validate_all-IsMapping (p ∷ ps) valid = elim (Result-cases (validate_parts (split b':' p))) [
  | inl here ↦
      let (h, c, parts, _) = validate_parts-two (split b':' p) here in
      let (ph, pc) = validate_parts-IsPort h c (rw parts at here) in
      ((h, c, parts, ph, pc), validate_all-IsMapping ps (ground (arith, here)))
  | inr (x, failed) ↦ absurd (ground (arith, failed))
]

parse_steps :
    (b : ℕ) (s : Text) (l : List Text)
    → parse_and_validate_ports (b ∷ s) ≡ ok l
    → (l ≡ split b',' (b ∷ s)) × (length l ≤ max_ports_per_instance) × (validate_all l ≡ ok tt)
unfolding parse_and_validate_ports
parse_steps b s l done = elim (Result-cases (validate_all (split b',' (b ∷ s)))) [
  | inl fine ↦
      let same : split b',' (b ∷ s) ≡ l = ground (arith, fine) in
      (sym same, rw (← same) (ground (arith, fine)), rw (← same) fine)
  | inr (x, failed) ↦ absurd (ground (arith, failed))
]

parse_of_nil : parse_and_validate_ports [] ≡ ok []
unfolding parse_and_validate_ports
parse_of_nil = refl

parse-nil : (l : List Text) → parse_and_validate_ports [] ≡ ok l → l ≡ []
unfolding parse_and_validate_ports
parse-nil l done = cc

-- Accepted port mappings are at most ten, one for each piece between commas, and each names a
-- host port and a container port between 0 and 65535.
pub parse_and_validate_ports_sound :
    (s : Text) (l : List Text)
    → parse_and_validate_ports s ≡ ok l
    → (length l ≤ max_ports_per_instance) × All IsMapping l × ((s ≡ []) ⊎ (l ≡ split b',' s))
unfolding parse_and_validate_ports
parse_and_validate_ports_sound [] l done =
    let none_left : l ≡ [] = parse-nil l done in
    (rw none_left (omega arith), rw none_left tt, inl refl)
parse_and_validate_ports_sound (b ∷ s) l done =
    let (pieces, few, valid) = parse_steps b s l done in
    (few, validate_all-IsMapping l valid, inr pieces)

blank_invalid : ¬ (validate_all (split b',' []) ≡ ok tt)
unfolding validate_all validate_parts split
blank_invalid valid = cc

split-cons : (sep : ℕ) (s : Text) → (p : Text) × (ps : List Text) × (split sep s ≡ p ∷ ps)
unfolding split
split-cons sep [] = ([], [], refl)
split-cons sep (b ∷ s) = elim (Bool-cases (b == sep)) [
  | inl here ↦ ([], split sep s, rw here refl)
  | inr other ↦ let (p, ps, e) = split-cons sep s in (b ∷ p, ps, rw (other, e) refl)
]

parse_of_valid :
    (t : Text) (ps : List Text)
    → split b',' t ≡ ps
    → length ps ≤ max_ports_per_instance
    → validate_all ps ≡ ok tt
    → parse_and_validate_ports t ≡ ok ps
unfolding parse_and_validate_ports
parse_of_valid [] ps pieces few valid = absurd (blank_invalid (rw (sym pieces) at valid))
parse_of_valid (b ∷ t) ps pieces few valid = ground arith

split-ne-nil : (sep : ℕ) (s : Text) → split sep s ≢ []
split-ne-nil sep s none_left = let (p, ps, whole) = split-cons sep s in cc (sym whole ∙ none_left)

map-ne-nil : (ps : List Text) → ps ≢ [] → map dynamic_port ps ≢ []
map-ne-nil [] h e = h refl
map-ne-nil (p ∷ ps) h e = cc

split-join_cons :
    (sep : ℕ) (ps : List Text) → ps ≢ [] → All (Lacks sep) ps → split sep (join sep ps) ≡ ps
split-join_cons sep [] h clean = absurd (h refl)
split-join_cons sep (p ∷ ps) h clean = split-join sep p ps clean

-- If the port mappings of a group are accepted, so are the mappings with dynamic host ports that
-- its instances are launched with, and there are as many.
pub parse_and_validate_ports-to_dynamic_ports :
    (s : Text) (l : List Text)
    → parse_and_validate_ports s ≡ ok l
    → parse_and_validate_ports (to_dynamic_ports s) ≡ ok (map dynamic_port l)
unfolding to_dynamic_ports
parse_and_validate_ports-to_dynamic_ports [] l done = rw (parse-nil l done) parse_of_nil
parse_and_validate_ports-to_dynamic_ports (b ∷ s) l done =
    let (pieces, few, valid) = parse_steps b s l done in
    let clean : All (Lacks b',') l = rw pieces (split-Lacks b',' (b ∷ s)) in
    let (clean', valid') = dynamic_ports-valid l clean valid in
    rw (← pieces) (
      parse_of_valid (join b',' (map dynamic_port l)) (map dynamic_port l)
        (split-join_cons b',' (map dynamic_port l)
          (map-ne-nil l (λ none_left. split-ne-nil b',' (b ∷ s) (sym pieces ∙ none_left))) clean')
        (rw (length-map dynamic_port l) few) valid')
