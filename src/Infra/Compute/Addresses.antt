-- ===== src/Infra/Compute/Addresses.antt =====
-- The address of a new instance: `resolveNetworkConfig` and `allocateIP` of
-- internal/core/services/instance.go compare what PostgreSQL writes for an `inet`.
use thecloud.Prelude.{
  ℕ, zero, suc, ◌<◌, Bool, true, false, some, List, [], ◌∷◌, ◌++◌, map, Text, text, text_eq, any,
  any-append, keep, find?, ◌==◌, ◌&&◌, ◌≡◌, ◌∙◌, refl, arith, text_eq-ne,
}
use thecloud.Action.{ok, World, Env}
use thecloud.Ports.Strings.{join}
use thecloud.Net.Address.{Address, IpNet, size, contains, increment, show, show_byte}
use thecloud.Net.Allocate.{search, find_available_ip, used_ips, allocate_ip, calculate_gateway_ip}
use thecloud.Infra.Types.{Subnet, Instance, Tables, Backend}
use thecloud.Infra.Network.Repo.{get_subnet_by_id, scanned_subnet, shown_ip, refers_to}
use thecloud.Infra.Compute.Repo.{list_by_subnet, scanned_instance}
use thecloud.Infra.Compute.Launch.{allocate_subnet_ip, place_in_subnet}

abbrev pub has_byte : ℕ → Text → Bool
has_byte c = any (λ x. x == c)

show_byte-digits : (n : ℕ) → has_byte b'/' (show_byte n) ≡ false
show_byte-digits n = ground arith

join-no_slash : (ns : List ℕ) → has_byte b'/' (join b'.' (map show_byte ns)) ≡ false
unfolding join
join-no_slash [] = refl
join-no_slash (n ∷ []) = show_byte-digits n
join-no_slash (n ∷ m ∷ ns) =
    any-append (λ x. x == b'/') (show_byte n) (b'.' ∷ join b'.' (map show_byte (m ∷ ns)))
    ∙ ground (arith, show_byte-digits n, join-no_slash (m ∷ ns))

-- No address is written with a slash.
show-no_slash : (a : Address) → has_byte b'/' (show a) ≡ false
unfolding show
show-no_slash a = join-no_slash a

other_text : (s t : Text) → has_byte b'/' s ≡ true → has_byte b'/' t ≡ false → text_eq s t ≡ false
other_text s t hs ht = text_eq-ne s t (λ e. cc)

search-first :
    (fuel : ℕ) (net : IpNet) (used : Text → Bool) (ip : Address)
    → 0 < fuel
    → contains net (increment ip) ≡ true
    → used (show (increment ip)) ≡ false
    → search fuel net used ip ≡ some (some (increment ip))
unfolding search
search-first zero net used ip h inside free = absurd (omega arith)
search-first (suc fuel) net used ip h inside free = rw (inside, free) refl

inside-size : (net : IpNet) (a : Address) → contains net a ≡ true → 0 < size net
inside-size net a h = ground arith

module _ {O : Type 0} (b : Backend O)
    (slashed : (t : Text) → has_byte b'/' (b.inet_text t) ≡ true) where
  shown_other :
      (stored : Text) (a : Address)
      → text_eq stored [] ≡ false
      → text_eq (shown_ip b stored) (show a) ≡ false
  shown_other [] a given = cc
  shown_other (x ∷ t) a given =
      other_text (b.inet_text (x ∷ t)) (show a) (slashed (x ∷ t)) (show-no_slash a)

  -- Nothing that is read of the database is an address as it is searched for.
  used_ips-none :
      (rows : List Instance) (gateway : Text) (a : Address)
      → text_eq gateway [] ≡ false
      → used_ips
          (map (λ (i : Instance). i.private_ip) (map (scanned_instance b) rows))
          (shown_ip b gateway)
          (show a)
        ≡ false
  unfolding used_ips
  used_ips-none [] gateway a given = shown_other gateway a given
  used_ips-none (i ∷ rows) gateway a given = go i.private_ip _ (used_ips-none rows gateway a given)
    where
      step :
          (p : Text) (rest : List Text)
          → text_eq p (show a) ≡ false
          → used_ips rest (shown_ip b gateway) (show a) ≡ false
          → used_ips (p ∷ rest) (shown_ip b gateway) (show a) ≡ false
      step [] rest other h = h
      step (c ∷ p) rest other h = ground (arith, other, h)

      go :
          (stored : Text) (rest : List Text)
          → used_ips rest (shown_ip b gateway) (show a) ≡ false
          → used_ips (shown_ip b stored ∷ rest) (shown_ip b gateway) (show a) ≡ false
      go [] rest h = h
      go (x ∷ t) rest h =
          step (b.inet_text (x ∷ t)) rest
            (other_text (b.inet_text (x ∷ t)) (show a) (slashed (x ∷ t)) (show-no_slash a)) h

  first_address :
      (rows : List Instance) (net : IpNet) (gateway : Text)
      → text_eq gateway [] ≡ false
      → contains net (increment net.ip) ≡ true
      → allocate_ip
          (size net)
          net
          (map (λ (i : Instance). i.private_ip) (map (scanned_instance b) rows))
          (shown_ip b gateway)
        ≡ some (some (show (increment net.ip)))
  unfolding allocate_ip find_available_ip
  first_address rows net gateway given inside =
      rw
        (search-first (size net) net
          (used_ips (map (λ (i : Instance). i.private_ip) (map (scanned_instance b) rows))
            (shown_ip b gateway))
          net.ip (inside-size net (increment net.ip) inside) inside
          (used_ips-none rows gateway (increment net.ip) given))
        refl

  allocate_first :
      (e : Env) (w : World (Tables O)) (row : Subnet) (ip : Address) (net : IpNet)
      → text_eq row.gateway_ip [] ≡ false
      → b.parse_cidr row.cidr_block ≡ some (ip, net)
      → contains net (increment net.ip) ≡ true
      → e.fails w.tick ≡ false
      → allocate_subnet_ip b (scanned_subnet b row) e w
        ≡ (ok (show (increment net.ip)), record w { tick = suc w.tick })
  unfolding allocate_subnet_ip list_by_subnet
  allocate_first e w row ip net given parsed inside fine = ground (
    arith,
    parsed,
    fine,
    first_address
        (keep (λ (i : Instance). refers_to i.subnet_id row.id && i.user_id == e.user)
          w.tables.instances)
        net row.gateway_ip given inside,
  )

-- If the database writes an `inet` with the length of its mask, as PostgreSQL does, then no address
-- that is read is one that the search compares with: whatever instances a subnet with a gateway has,
-- the next one gets the address after that of the network, which is the gateway of a subnet that
-- was created with the address of its network.
pub place_in_subnet-gateway :
    {O : Type 0} (b : Backend O) (e : Env) (w : World (Tables O)) (id : ℕ) (row : Subnet)
    (ip : Address) (net : IpNet)
    → ((t : Text) → has_byte b'/' (b.inet_text t) ≡ true)
    → b.has_network ≡ true
    → find? (λ (s : Subnet). s.id == id && s.user_id == e.user) w.tables.subnets ≡ some row
    → text_eq row.gateway_ip [] ≡ false
    → b.parse_cidr row.cidr_block ≡ some (ip, net)
    → contains net (increment net.ip) ≡ true
    → e.fails w.tick ≡ false
    → e.fails (suc w.tick) ≡ false
    → (place_in_subnet b (some id) e w).0
      ≡ ok (calculate_gateway_ip net.ip, text "veth-" ++ b.short (e.fresh (suc (suc w.tick))))
unfolding place_in_subnet get_subnet_by_id calculate_gateway_ip
place_in_subnet-gateway b e w id row ip net slashed on found given parsed inside fine fine' =
    ground (
      arith,
      on,
      fine,
      found,
      allocate_first b slashed e (record w { tick = suc w.tick }) row ip net given parsed inside
          fine',
    )
