-- ===== src/Net/Tests.antt =====
-- The network 10.0.0.0/30.
use thecloud.Prelude.{◌+◌, ◌-◌, List, [], ◌∷◌, Text, text, ◌≡◌, ◌==◌, if◌then◌else◌, arith}
use thecloud.Net.Address.{IpNet, size, increment, value, weight}
use thecloud.Net.Allocate.{find_available_ip, used_ips}
use thecloud.Net.Search.{IsNet, Outcome, find_available_ip-first, value-increment}

abbrev small : IpNet
small = record { ip = 10 ∷ 0 ∷ 0 ∷ 0 ∷ []; ones = 30 }

abbrev private : List Text
private = [] ∷ text "10.0.0.2" ∷ []

abbrev gateway : Text
gateway = text "10.0.0.1"

small-IsNet : IsNet small
small-IsNet = record {
  bytes = (omega arith, (omega arith, (omega arith, (omega arith, tt))));
  positive = omega arith;
  fits = omega arith;
}

find_available_ip-first_example :
    Outcome small
      (used_ips private gateway)
      (size small - 1)
      small.ip
      (find_available_ip 4 small (used_ips private gateway))
find_available_ip-first_example =
    find_available_ip-first small (used_ips private gateway) small-IsNet 4 (omega arith)

value-increment_example : value (increment (10 ∷ 0 ∷ 0 ∷ 255 ∷ [])) ≡ (
    if value (10 ∷ 0 ∷ 0 ∷ 255 ∷ []) + 1 == weight (10 ∷ 0 ∷ 0 ∷ 255 ∷ [])
    then 0
    else value (10 ∷ 0 ∷ 0 ∷ 255 ∷ []) + 1)
value-increment_example =
    value-increment (10 ∷ 0 ∷ 0 ∷ 255 ∷ [])
      (omega arith, (omega arith, (omega arith, (omega arith, tt))))
