-- ===== src/Ports/Strings.antt =====
-- The functions of Go's `strings` and `strconv` that the port mappings are read with. Blanks are
-- the ASCII ones.
use thecloud.Prelude.{
  ℕ, ◌+◌, ◌-◌, ◌*◌, ◌^◌, Bool, Option, none, some, List, [], ◌∷◌, ◌++◌, Text, leb, ltb, ◌==◌, ◌&&◌,
  ◌||◌, if◌then◌else◌,
}
use thecloud.Prelude.Int.{ℤ, pos, negsuc}

-- A byte in front of the first piece.
abbrev pub cons_head : ℕ → List Text → List Text
cons_head b [] = (b ∷ []) ∷ []
cons_head b (p ∷ ps) = (b ∷ p) ∷ ps

-- `strings.Split` at one byte: always one piece more than there are separators.
unfoldable pub split : ℕ → Text → List Text
split sep [] = [] ∷ []
split sep (b ∷ s) = if b == sep then [] ∷ split sep s else cons_head b (split sep s)

-- `strings.Join`.
unfoldable pub join : ℕ → List Text → Text
join sep [] = []
join sep (p ∷ []) = p
join sep (p ∷ q ∷ ps) = p ++ sep ∷ join sep (q ∷ ps)

-- `unicode.IsSpace` below 128.
abbrev pub is_space : ℕ → Bool
is_space b = b == 32 || (leb 9 b && leb b 13)

unfoldable pub trim_left : Text → Text
trim_left [] = []
trim_left (b ∷ s) = if is_space b then trim_left s else b ∷ s

-- `strings.TrimSpace` from the right.
unfoldable pub trim_right : Text → Text
trim_right [] = []
trim_right (b ∷ s) = elim (trim_right s) [
  | [] ↦ if is_space b then [] else b ∷ []
  | c ∷ r ↦ b ∷ c ∷ r
]

unfoldable pub trim_space : Text → Text
unfolding trim_left trim_right
trim_space s = trim_right (trim_left s)

-- The digits of `strconv.Atoi`, most significant first.
unfoldable pub digits : ℕ → Text → Option ℕ
digits n [] = some n
digits n (b ∷ s) = if leb b'0' b && leb b b'9' then digits (n * 10 + (b - b'0')) s else none

-- One digit at least.
abbrev pub number : Text → Option ℕ
number [] = none
number (b ∷ s) = digits 0 (b ∷ s)

-- `-n`, for a 64-bit integer.
abbrev pub negative : ℕ → Option ℤ
negative n = if n == 0 then some (pos 0) else if leb n (2 ^ 63) then some (negsuc (n - 1)) else none

abbrev pub positive : ℕ → Option ℤ
positive n = if ltb n (2 ^ 63) then some (pos n) else none

-- `strconv.Atoi`: an optional sign and decimal digits, within 64 bits.
unfoldable pub atoi : Text → Option ℤ
unfolding digits
atoi [] = none
atoi (b ∷ s) =
    if b == b'-'
    then (elim (number s) [ none ↦ none | some n ↦ negative n ])
    else if b == b'+'
    then (elim (number s) [ none ↦ none | some n ↦ positive n ])
    else (elim (number (b ∷ s)) [ none ↦ none | some n ↦ positive n ])
