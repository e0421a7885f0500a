-- ===== src/Infra/Compute/Terminate.antt =====
-- Reading, stopping and terminating an instance, for its owner and for others:
-- internal/core/services/instance.go.
use thecloud.Prelude.{
  ℕ, Bool, true, false, none, some, List, [], ◌∷◌, any, find?, find?-true, Keyed, Text, text_eq,
  ◌==◌, ◌&&◌, ◌≡◌, refl, map, keep, not, if◌then◌else◌, ap, ◌∙◌, arith, inl, inr, Option-cases,
}
use thecloud.Action.{ok, World, Env, bind-first}
use thecloud.Infra.Types.{Instance, Volume, VolumeStatus, LbTarget, Tables, Backend}
use thecloud.Infra.Compute.Repo.{loosen, get_instance_by_id, get_instance_by_name, is_owned}
use thecloud.Infra.Compute.Lifecycle.{
  get_instance, remove_container, terminate_found, terminate_instance,
}
use thecloud.Infra.Compute.Release.{free_if, is_attached, volume_key, released, terminate_found_lem}

any-found :
    (p q : Instance → Bool) (xs : List Instance) {x : Instance}
    → find? p xs ≡ some x
    → q x ≡ true
    → any q xs ≡ true
any-found p q [] h hit = cc
any-found p q (y ∷ ys) {x} h hit = ground (arith, any-found p q ys {x = x})

module _ {O : Type 0} (b : Backend O) (e : Env) (w : World (Tables O)) where
  get_instance-tables : (name : Text) → (get_instance b name e w).1.tables ≡ w.tables
  unfolding get_instance get_instance_by_id get_instance_by_name
  get_instance-tables name = elim (Option-cases (b.parse_id name)) [
    | inl plain_name ↦ ground (arith, plain_name)
    | inr (id, parsed) ↦ ground (arith, parsed)
  ]

  -- The instance that is found is the caller's.
  get_instance-owned :
      (name : Text) (i : Instance)
      → (get_instance b name e w).0 ≡ ok i
      → any (is_owned i.id e.user) w.tables.instances ≡ true
  unfolding get_instance get_instance_by_id get_instance_by_name
  get_instance-owned name i found = elim (Option-cases (b.parse_id name)) [
    | inl plain_name ↦
        let named = λ (x : Instance). text_eq x.name name && x.user_id == e.user in
        elim (Option-cases (find? named w.tables.instances)) [
          | inl missing ↦ ground (arith, plain_name, missing)
          | inr (row, hit) ↦
              any-found named (is_owned i.id e.user) w.tables.instances {x = row} hit (
                ground (arith, plain_name, hit, found, find?-true named w.tables.instances row hit))
        ]
    | inr (id, parsed) ↦ elim (Option-cases (find? (is_owned id e.user) w.tables.instances)) [
      | inl missing ↦ ground (arith, parsed, missing)
      | inr (row, hit) ↦
          any-found (is_owned id e.user) (is_owned i.id e.user) w.tables.instances {x = row} hit (
            ground (
              arith,
              parsed,
              hit,
              found,
              find?-true (is_owned id e.user) w.tables.instances row hit,
            ))
    ]
  ]

-- A volume after the end of an instance: one of the caller's that was attached to it is available and
-- not mounted, and none is attached to it.
abbrev pub detached : ℕ → ℕ → Volume → Volume
detached inst user v = elim v.instance_id [
  | none ↦ v
  | some at ↦
      if not (at == inst)
      then v
      else if v.user_id == user
      then record v { status = VolumeStatus.available; instance_id = none; mount_path = [] }
      else record v { instance_id = none }
]

map-detached :
    (e : Env) (id : ℕ) (vs : List Volume)
    → map (loosen id) (map (free_if (is_attached e id)) vs) ≡ map (detached id e.user) vs
map-detached e id [] = refl
map-detached e id (v ∷ vs) = elim (Option-cases v.instance_id) [
  | inl free ↦ ground (arith, map-detached e id vs)
  | inr (at, held) ↦ ground (arith, map-detached e id vs)
]

released-detached :
    {O : Type 0} (e : Env) (id : ℕ) (t : Tables O)
    → released e id t ≡ record t {
      instances = keep (λ (x : Instance). not (x.id == id && x.user_id == e.user)) t.instances;
      targets = keep (λ (x : LbTarget). not (x.instance_id == id)) t.targets;
      volumes = map (detached id e.user) t.volumes;
    }
released-detached e id t = rw (map-detached e id t.volumes) refl

-- If the database answers, the identifiers of volumes are a key, the caller's instance is found and
-- its container is removed, then `TerminateInstance` succeeds: the row goes and its targets with it,
-- the caller's volumes that were attached to it are available, with no instance and no mount path,
-- and any other volume that named it names none.
pub terminate_instance-releases :
    {O : Type 0} (b : Backend O) (e : Env) (w : World (Tables O)) (name : Text) (i : Instance)
    → ((n : ℕ) → e.fails n ≡ false)
    → Keyed volume_key w.tables.volumes
    → (get_instance b name e w).0 ≡ ok i
    → (remove_container b i e (get_instance b name e w).1).0 ≡ ok tt
    → (let w' = (remove_container b i e (get_instance b name e w).1).1 in
        ((terminate_instance b name e w).0 ≡ ok tt)
        × ((terminate_instance b name e w).1.tables ≡ record w.tables {
          instances =
              keep (λ (x : Instance). not (x.id == i.id && x.user_id == e.user)) w.tables.instances;
          targets = keep (λ (x : LbTarget). not (x.instance_id == i.id)) w.tables.targets;
          volumes = map (detached i.id e.user) w.tables.volumes;
          outside = w'.tables.outside;
        }))
unfolding terminate_instance remove_container
terminate_instance-releases {O} b e w name i answers k found gone =
    let spec = released-detached e i.id in
    let w0 = (get_instance b name e w).1 in
    let same = get_instance-tables b e w name in
    let there : any (is_owned i.id e.user) w0.tables.instances ≡ true =
      rw same (get_instance-owned b e w name i found) in
    let keyed : Keyed volume_key w0.tables.volumes = rw same k in
    let (fine, rows) = terminate_found_lem b e answers i w0 keyed gone there in
    rw (bind-first (get_instance b name) (terminate_found b) e w i found) (
      fine,
      rows
          ∙ ap
              (λ (t : Tables O).
                released e i.id
                  (record t { outside = (remove_container b i e w0).1.tables.outside }))
              same
          ∙ spec (record w.tables { outside = (remove_container b i e w0).1.tables.outside }),
    )
