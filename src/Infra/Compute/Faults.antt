-- ===== src/Infra/Compute/Faults.antt =====
-- `LaunchInstance` of internal/core/services/instance.go into a VPC of another user.
use thecloud.Prelude.{
  ℕ, suc, true, false, none, some, List, [], ◌∷◌, ◌++◌, Text, any, any-append, find?, ap, ◌∙◌,
  ==_refl, ◌==◌, ◌&&◌, ◌||◌, ◌≡◌, refl, arith, inl, inr, Bool-cases,
}
use thecloud.Action.{ok, is_ok, World, Env, pure, bind-err, ◌>>=◌}
use thecloud.Ports.{parse_and_validate_ports}
use thecloud.Infra.Types.{Vpc, Instance, VolumeAttachment, Tables, Backend}
use thecloud.Infra.Network.Repo.{delete_vpc_row, get_vpc_by_id, pins_vpc, refers_to, lies_in}
use thecloud.Infra.Network.Pinned.{delete_vpc_row-pinned}
use thecloud.Infra.Compute.Repo.{create_instance_row}
use thecloud.Infra.Compute.Launch.{
  new_instance, network_of, place_in_subnet, resolve_network_config, start_placed, start_instance,
  launch_instance,
}

module _ {O : Type 0} (b : Backend O) (e : Env) (w : World (Tables O)) (vpc : ℕ)
    (foreign : find? (λ (v : Vpc). v.id == vpc && v.user_id == e.user) w.tables.vpcs ≡ none) where
  network_of-foreign :
      (is_ok (network_of b (some vpc) e w).0 ≡ false)
      × ((network_of b (some vpc) e w).1.tables ≡ w.tables)
  unfolding network_of get_vpc_by_id
  network_of-foreign = elim (Bool-cases (e.fails w.tick)) [
    | inl failed ↦ ground (arith, failed)
    | inr fine ↦ ground (arith, fine, foreign)
  ]

  start_instance-foreign :
      (i : Instance) (list : List Text) (attachments : List VolumeAttachment)
      → i.vpc_id ≡ some vpc
      → (is_ok (start_instance b i list attachments e w).0 ≡ false)
        × ((start_instance b i list attachments e w).1.tables ≡ w.tables)
  unfolding start_instance resolve_network_config
  start_instance-foreign i list attachments at =
      let net : (is_ok (network_of b i.vpc_id e w).0 ≡ false)
          × ((network_of b i.vpc_id e w).1.tables ≡ w.tables) =
        rw at network_of-foreign in
      let (lost, same) =
        bind-err (network_of b i.vpc_id)
          (λ network. place_in_subnet b i.subnet_id >>= λ place. pure (network, place.0, place.1)) e
          w net.0 in
      let (lost', same') =
        bind-err (resolve_network_config b i.vpc_id i.subnet_id) (start_placed b i list attachments)
          e w lost in
      (lost', ap (λ (x : World (Tables O)). x.tables) (same' ∙ same) ∙ net.1)

-- A new instance of a VPC pins it.
pins_vpc-new :
    {O : Type 0} (t : Tables O) (i : Instance) (vpc : ℕ)
    → refers_to i.vpc_id vpc ≡ true
    → pins_vpc vpc (record t { instances = t.instances ++ i ∷ [] }) ≡ true
pins_vpc-new t i vpc at = ground (
  arith,
  at,
  any-append (λ (x : Instance). refers_to x.vpc_id vpc || lies_in t vpc x.subnet_id) t.instances
      (i ∷ []),
)

launch_instance-stored :
    {O : Type 0} (b : Backend O) (e : Env) (w : World (Tables O)) (vpc : ℕ)
    (name image ports : Text) (attachments : List VolumeAttachment) (list : List Text)
    → any (λ (v : Vpc). v.id == vpc) w.tables.vpcs ≡ true
    → any (λ (i : Instance). i.id == e.fresh w.tick) w.tables.instances ≡ false
    → parse_and_validate_ports ports ≡ ok list
    → e.fails (suc w.tick) ≡ false
    → (let i = new_instance b (e.fresh w.tick) e.user name image ports (some vpc) none in
        launch_instance b name image ports (some vpc) none attachments e w
        ≡ start_instance b i list attachments e (record w {
          tables = record w.tables { instances = w.tables.instances ++ i ∷ [] };
          tick = suc (suc w.tick);
        }))
unfolding launch_instance create_instance_row
launch_instance-stored b e w vpc name image ports attachments list there new good fine =
    ground (arith, there, new, good, fine)

-- A launch into a VPC of another user fails, but the row of the instance stays, without a container,
-- and keeps the owner of the VPC from deleting the VPC's row.
pub launch_instance-foreign_vpc :
    {O : Type 0} (b : Backend O) (e : Env) (w : World (Tables O)) (vpc : ℕ)
    (name image ports : Text) (attachments : List VolumeAttachment) (list : List Text)
    → find? (λ (v : Vpc). v.id == vpc && v.user_id == e.user) w.tables.vpcs ≡ none
    → any (λ (v : Vpc). v.id == vpc) w.tables.vpcs ≡ true
    → any (λ (i : Instance). i.id == e.fresh w.tick) w.tables.instances ≡ false
    → parse_and_validate_ports ports ≡ ok list
    → e.fails (suc w.tick) ≡ false
    → (let o = launch_instance b name image ports (some vpc) none attachments e w in
        let i = new_instance b (e.fresh w.tick) e.user name image ports (some vpc) none in
        (is_ok o.0 ≡ false)
        × (o.1.tables.instances ≡ w.tables.instances ++ i ∷ [])
        × ((owner : Env) → is_ok (delete_vpc_row b vpc owner o.1).0 ≡ false))
launch_instance-foreign_vpc {O} b e w vpc name image ports attachments list foreign there new good
      fine =
    let i = new_instance b (e.fresh w.tick) e.user name image ports (some vpc) none in
    let w' : World (Tables O) = record w {
      tables = record w.tables { instances = w.tables.instances ++ i ∷ [] };
      tick = suc (suc w.tick);
    } in
    let (lost, same) = start_instance-foreign b e w' vpc foreign i list attachments refl in
    let stored =
      launch_instance-stored b e w vpc name image ports attachments list there new good fine in
    rw stored (
      lost,
      ap (λ (t : Tables O). t.instances) same,
      λ owner.
          (delete_vpc_row-pinned b owner (start_instance b i list attachments e w').1 vpc
            (rw same (pins_vpc-new w.tables i vpc (==_refl vpc)))).0,
    )
