-- ===== src/Net/Address.antt =====
-- The part of the package net that the services use, and the byte-wise increment of
-- internal/core/services/instance.go and subnet.go. An address is its bytes, the highest first.
use native.Mathlib.Nat.{mul-le-mul_right}
use thecloud.Prelude.{
  ℕ, ◌+◌, ◌-◌, ◌*◌, ◌/◌, ◌%◌, ◌^◌, ◌≤◌, ◌<◌, Bool, true, false, List, [], ◌∷◌, map, Text, length,
  All, ltb, leb, ◌==◌, ◌&&◌, if◌then◌else◌, ◌≡◌, refl, arith, inl, inr, Bool-cases, ==→ne,
}
use thecloud.Ports.Strings.{join}

abbrev pub Address : Type 0
Address = List ℕ

-- `byte` in decimal.
abbrev pub show_byte : ℕ → Text
show_byte n =
    if ltb n 10
    then (b'0' + n) ∷ []
    else if ltb n 100
    then (b'0' + n / 10) ∷ (b'0' + n % 10) ∷ []
    else (b'0' + n / 100) ∷ (b'0' + n / 10 % 10) ∷ (b'0' + n % 10) ∷ []

-- `IP.String`, of an address of four bytes.
unfoldable pub show : Address → Text
show ip = join b'.' (map show_byte ip)

-- The loop from the last byte to the first, which goes on while a byte turns 0. The flag says that
-- every byte so far has.
unfoldable pub carry : Address → Bool × Address
carry [] = (true, [])
carry (b ∷ bs) =
    let (all_zero, rest) = carry bs in
    if all_zero then ((b + 1) % 256 == 0, (b + 1) % 256 ∷ rest) else (false, b ∷ rest)

unfoldable pub increment : Address → Address
increment ip = (carry ip).1

-- How many addresses have so many bytes.
abbrev pub weight : Address → ℕ
weight [] = 1
weight (b ∷ bs) = 256 * weight bs

-- The number that the bytes write.
abbrev pub value : Address → ℕ
value [] = 0
value (b ∷ bs) = b * weight bs + value bs

-- `net.IPNet` as `ParseCIDR` makes it: the first address of the network and the length of the mask.
pub record IpNet : Type 0 where
  pub ip : Address
  pub ones : ℕ

abbrev pub size : IpNet → ℕ
size n = 2 ^ (8 * length n.ip - n.ones)

-- `IPNet.Contains`: the addresses of a network are `size` many from its first.
abbrev pub contains : IpNet → Address → Bool
contains n a = leb (value n.ip) (value a) && ltb (value a) (value n.ip + size n)

abbrev pub IsBytes : Address → Type 0
IsBytes = All (λ (b : ℕ). b < 256)

step :
    (b p v v' : ℕ)
    → b < 256
    → v' + p ≡ v + 1
    → (b + 1) % 256 * p + v' + (if (b + 1) % 256 == 0 then 256 * p else 0) ≡ b * p + v + 1
step b p v v' byte same = elim (Bool-cases (b == 255)) [
  | inl last ↦ grind arith
  | inr other ↦
      let small : (b + 1) % 256 ≡ b + 1 = omega (arith, ==→ne b 255 other, byte) in
      rw small (grind arith)
]

pub weight-carry : (a : Address) → weight (carry a).1 ≡ weight a
unfolding carry
weight-carry [] = refl
weight-carry (b ∷ bs) = ground (arith, weight-carry bs)

pub carry_lem :
    (a : Address)
    → IsBytes a
    → value (carry a).1 + (if (carry a).0 then weight a else 0) ≡ value a + 1
unfolding carry
carry_lem [] h = refl
carry_lem (b ∷ bs) h =
    let ih = carry_lem bs h.1 in
    elim (Bool-cases (carry bs).0) [
      | inl all_zero ↦
          let rest : value (carry bs).1 + weight bs ≡ value bs + 1 = rw all_zero at ih in
          rw (all_zero, weight-carry bs)
            (step b (weight bs) (value bs) (value (carry bs).1) h.0 rest)
      | inr stop ↦
          let rest : value (carry bs).1 + 0 ≡ value bs + 1 = rw stop at ih in
          rw (stop, weight-carry bs) (omega (arith, rest))
    ]

pub carry-IsBytes : (a : Address) → IsBytes a → IsBytes (carry a).1
unfolding carry
carry-IsBytes [] h = tt
carry-IsBytes (b ∷ bs) h = ground (arith, carry-IsBytes bs h.1)

value_lt : (b p v : ℕ) → b < 256 → v < p → b * p + v < 256 * p
value_lt b p v byte small =
    let most : b * p ≤ 255 * p = mul-le-mul_right p (omega (arith, byte)) in
    omega (arith, most, small)

-- Bytes write a number below their weight.
pub value-weight_lt : (a : Address) → IsBytes a → value a < weight a
value-weight_lt [] h = omega arith
value-weight_lt (b ∷ bs) h = value_lt b (weight bs) (value bs) h.0 (value-weight_lt bs h.1)
