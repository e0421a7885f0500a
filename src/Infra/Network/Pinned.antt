-- ===== src/Infra/Network/Pinned.antt =====
-- What happens to a VPC that is in use when it is deleted by internal/core/services/vpc.go.
use thecloud.Prelude.{ℕ, true, false, Text, ◌≡◌, ap, ◌∙◌, arith, inl, inr, Bool-cases, Option-cases}
use thecloud.Action.{ok, is_ok, World, Env, bind-first}
use thecloud.Infra.Types.{Vpc, Tables, Backend}
use thecloud.Infra.Network.Repo.{get_vpc_by_id, get_vpc_by_name, delete_vpc_row, pins_vpc}
use thecloud.Infra.Network.Service.{get_vpc, delete_vpc, delete_found}
use thecloud.Infra.Compute.Launch.{outside}

-- What a row pins is not deleted.
pub delete_vpc_row-pinned :
    {O : Type 0} (b : Backend O) (e : Env) (w : World (Tables O)) (vpc : ℕ)
    → pins_vpc vpc w.tables ≡ true
    → (is_ok (delete_vpc_row b vpc e w).0 ≡ false)
      × ((delete_vpc_row b vpc e w).1.tables ≡ w.tables)
unfolding delete_vpc_row
delete_vpc_row-pinned b e w vpc pinned = elim (Bool-cases (e.fails w.tick)) [
  | inl failed ↦ ground (arith, failed)
  | inr fine ↦ ground (arith, fine, pinned)
]

module _ {O : Type 0} (b : Backend O) (e : Env) (w : World (Tables O)) where
  get_vpc-tables : (name : Text) → (get_vpc b name e w).1.tables ≡ w.tables
  unfolding get_vpc get_vpc_by_id get_vpc_by_name
  get_vpc-tables name = elim (Option-cases (b.parse_id name)) [
    | inl plain_name ↦ ground (arith, plain_name)
    | inr (id, parsed) ↦ ground (arith, parsed)
  ]

  delete_found-pinned :
      (vpc : Vpc)
      → pins_vpc vpc.id w.tables ≡ true
      → (outside (b.delete_bridge vpc.network_id) e w).0 ≡ ok tt
      → (is_ok (delete_found b vpc e w).0 ≡ false)
        × ((delete_found b vpc e w).1.tables
            ≡ (outside (b.delete_bridge vpc.network_id) e w).1.tables)
  unfolding delete_found
  delete_found-pinned vpc pinned cut =
      let after = (outside (b.delete_bridge vpc.network_id) e w).1 in
      ground (arith, cut, delete_vpc_row-pinned b e after vpc.id pinned)

-- If a VPC is in use and its bridge is removed, `DeleteVPC` fails, whatever calls fail: every row
-- stays, and the network backend is as the removal of the bridge has left it.
pub delete_vpc-bridge :
    {O : Type 0} (b : Backend O) (e : Env) (w : World (Tables O)) (name : Text) (vpc : Vpc)
    → (get_vpc b name e w).0 ≡ ok vpc
    → pins_vpc vpc.id w.tables ≡ true
    → (outside (b.delete_bridge vpc.network_id) e (get_vpc b name e w).1).0 ≡ ok tt
    → (let cut = (outside (b.delete_bridge vpc.network_id) e (get_vpc b name e w).1).1 in
        (is_ok (delete_vpc b name e w).0 ≡ false)
        × ((delete_vpc b name e w).1.tables ≡ record w.tables { outside = cut.tables.outside }))
unfolding delete_vpc
delete_vpc-bridge b e w name vpc found pinned cut =
    let w' = (get_vpc b name e w).1 in
    let same = get_vpc-tables b e w name in
    let end = delete_found-pinned b e w' vpc (rw same pinned) cut in
    rw (bind-first (get_vpc b name) (delete_found b) e w vpc found) (
      end.0,
      end.1
          ∙ ap
              (λ (t : Tables _). record t {
                outside = (outside (b.delete_bridge vpc.network_id) e w').1.tables.outside;
              })
              same,
    )
