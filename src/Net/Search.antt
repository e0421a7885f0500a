-- ===== src/Net/Search.antt =====
-- The search for an address in internal/core/services/instance.go: what it finds is free and the
-- first free one, and it ends.
use native.Mathlib.Nat.{one-le-pow}
use thecloud.Prelude.{
  ℕ, zero, suc, length, ◌+◌, ◌-◌, ◌*◌, ◌≤◌, ◌<◌, Bool, true, false, Option, none, some, List, [],
  ◌∷◌, Text, All, ◌==◌, if◌then◌else◌, ◌≡◌, refl, ◌∙◌, sym, subst, ◌⊎◌, inl, inr, arith, Bool-cases,
}
use thecloud.Net.Address.{
  Address, IpNet, IsBytes, value, weight, size, contains, carry, increment, show, carry_lem,
  carry-IsBytes, weight-carry, value-weight_lt,
}
use thecloud.Net.Allocate.{search, find_available_ip}

-- The network does not begin at 0, and its addresses are addresses.
pub record IsNet (net : IpNet) : Type 0 where
  pub bytes : IsBytes net.ip
  pub positive : 0 < value net.ip
  pub fits : value net.ip + size net ≤ weight net.ip

-- The loop over the bytes adds one to the number that they write, except at the last address of
-- all, which turns to 0.
pub value-increment :
    (a : Address)
    → IsBytes a
    → (value (increment a) ≡ (if value a + 1 == weight a then 0 else value a + 1))
unfolding increment
value-increment a h =
    let sum = carry_lem a h in
    let below = value-weight_lt (carry a).1 (carry-IsBytes a h) in
    let small : value (carry a).1 < weight a = rw weight-carry at below in
    elim (Bool-cases (carry a).0) [
      | inl over ↦
          let whole : value (carry a).1 + weight a ≡ value a + 1 = rw over at sum in
          ground (arith, whole, small, value-weight_lt a h)
      | inr stay ↦
          let next : value (carry a).1 + 0 ≡ value a + 1 = rw stay at sum in
          ground (arith, next, small)
    ]

-- The n-th address after one, and the n addresses after one.
abbrev pub after : ℕ → Address → Address
after zero a = a
after (suc n) a = after n (increment a)

abbrev pub following : ℕ → Address → List Address
following zero a = []
following (suc n) a = increment a ∷ following n (increment a)

-- The first address after `ip` that is free, among the next `n`; or that there is none.
abbrev pub Outcome : IpNet → (Text → Bool) → ℕ → Address → Option (Option Address) → Type 0
Outcome net used n ip result =
    ((k : ℕ) × (k < n)
      × (result ≡ some (some (after (suc k) ip)))
      × (used (show (after (suc k) ip)) ≡ false)
      × (value (after (suc k) ip) ≡ value ip + suc k)
      × All (λ a. used (show a) ≡ true) (following k ip))
    ⊎ ((result ≡ some none) × All (λ a. used (show a) ≡ true) (following n ip))

-- An outcome after the next address, which is taken, is one after this address.
later-Outcome :
    (net : IpNet) (used : Text → Bool) (n : ℕ) (ip : Address) (r : Option (Option Address))
    → used (show (increment ip)) ≡ true
    → value (increment ip) ≡ value ip + 1
    → Outcome net used n (increment ip) r
    → Outcome net used (suc n) ip r
later-Outcome net used n ip r taken counted (inl (k, few, found, free, sum, all)) =
    inl (suc k, omega (arith, few), found, free, omega (arith, sum, counted), (taken, all))
later-Outcome net used n ip r taken counted (inr (lost, all)) = inr (lost, (taken, all))

module _ (net : IpNet) (used : Text → Bool) (valid : IsNet net) where
  -- Inside the network the increment counts up, and at its end it leaves the network.
  inside_next :
      (n : ℕ) (ip : Address)
      → IsBytes ip
      → weight ip ≡ weight net.ip
      → value net.ip ≤ value ip
      → value ip + suc (suc n) ≡ value net.ip + size net
      → (value (increment ip) ≡ value ip + 1) × (contains net (increment ip) ≡ true)
  inside_next n ip h same low room =
      let counted : value (increment ip) ≡ value ip + 1 =
        ground (arith, value-increment ip h, valid.fits) in
      (counted, ground (arith, counted))

  outside_next :
      (ip : Address)
      → IsBytes ip
      → weight ip ≡ weight net.ip
      → value ip + 1 ≡ value net.ip + size net
      → contains net (increment ip) ≡ false
  outside_next ip h same room = ground (arith, value-increment ip h, valid.fits, valid.positive)

  search_lem :
      (n fuel : ℕ) (ip : Address)
      → n < fuel
      → IsBytes ip
      → weight ip ≡ weight net.ip
      → value net.ip ≤ value ip
      → value ip + suc n ≡ value net.ip + size net
      → Outcome net used n ip (search fuel net used ip)
  unfolding search increment
  search_lem n zero ip few h same low room = absurd (omega (arith, few))
  search_lem zero (suc fuel) ip few h same low room =
      let out = outside_next ip h same room in inr (rw out refl, tt)
  search_lem (suc n) (suc fuel) ip few h same low room =
      let (counted, here) = inside_next n ip h same low room in
      elim (Bool-cases (used (show (increment ip)))) [
        | inr free ↦ inl (zero, omega arith, rw (here, free) refl, free, counted, tt)
        | inl taken ↦
            let go_on : search (suc fuel) net used ip ≡ search fuel net used (increment ip) =
              rw (here, taken) refl in
            let rest =
              search_lem n fuel (increment ip) (omega (arith, few)) (carry-IsBytes ip h)
                (weight-carry ip ∙ same) (omega (arith, low, counted))
                (omega (arith, room, counted)) in
            subst (Outcome net used (suc n) ip) (sym go_on)
              (later-Outcome net used n ip (search fuel net used (increment ip)) taken counted rest)
      ]

  -- Where the fuel is at least the size of the network, the search ends. It finds the first free
  -- address after that of the network, all before it being used, or there is none and every
  -- address of the network but its own is used.
  pub find_available_ip-first :
      (fuel : ℕ)
      → size net ≤ fuel
      → Outcome net used (size net - 1) net.ip (find_available_ip fuel net used)
  unfolding find_available_ip
  find_available_ip-first fuel enough =
      let some_address : 1 ≤ size net = one-le-pow (8 * length net.ip - net.ones) 2 (omega arith) in
      search_lem (size net - 1) fuel net.ip (omega (arith, some_address, enough)) valid.bytes refl
        (omega arith) (omega (arith, some_address))
