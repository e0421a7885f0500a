-- ===== src/Net/Allocate.antt =====
-- `findAvailableIP` and `allocateIP` of internal/core/services/instance.go, and
-- `calculateGatewayIP` of subnet.go.
use thecloud.Prelude.{
  ℕ, zero, suc, Bool, Option, none, some, List, [], ◌∷◌, Text, text_eq, ◌&&◌, ◌||◌, not,
  if◌then◌else◌,
}
use thecloud.Net.Address.{Address, IpNet, contains, increment, show}

-- The loop of `findAvailableIP`, from the address before the next one. `none` is out of fuel,
-- `some none` is the error after the loop.
unfoldable pub search : ℕ → IpNet → (Text → Bool) → Address → Option (Option Address)
unfolding increment
search zero net used ip = none
search (suc fuel) net used ip =
    let next = increment ip in
    let rest = search fuel net used next in
    if not (contains net next)
    then some none
    else if not (used (show next)) && contains net next
    then some (some next)
    else rest

-- `findAvailableIP`: the loop starts from the address of the network.
unfoldable pub find_available_ip : ℕ → IpNet → (Text → Bool) → Option (Option Address)
unfolding search
find_available_ip fuel net used = search fuel net used net.ip

-- The map `usedIPs` of `allocateIP`: the addresses of the subnet's instances that have one, and the
-- gateway.
unfoldable pub used_ips : List Text → Text → Text → Bool
used_ips [] gateway ip = text_eq gateway ip
used_ips ([] ∷ private) gateway ip = used_ips private gateway ip
used_ips ((b ∷ a) ∷ private) gateway ip = text_eq (b ∷ a) ip || used_ips private gateway ip

-- What the search found, as a text.
abbrev pub shown : Option (Option Address) → Option (Option Text)
shown none = none
shown (some none) = some none
shown (some (some ip)) = some (some (show ip))

-- `allocateIP`, after the subnet's CIDR was parsed and its instances were read. It compares texts as
-- they come from the queries, where `inet::text` carries the mask.
unfoldable pub allocate_ip : ℕ → IpNet → List Text → Text → Option (Option Text)
allocate_ip fuel net private gateway = shown (find_available_ip fuel net (used_ips private gateway))

-- `calculateGatewayIP`: the address after the one that was given.
unfoldable pub calculate_gateway_ip : Address → Text
unfolding increment show
calculate_gateway_ip ip = show (increment ip)
