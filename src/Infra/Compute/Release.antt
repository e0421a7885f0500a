-- ===== src/Infra/Compute/Release.antt =====
-- What `TerminateInstance` of internal/core/services/instance.go does to the volumes of an instance.
use thecloud.Prelude.{
  ℕ, suc, Bool, true, false, List, [], ◌∷◌, map, keep, any, modify, has_key, Keyed, ◌==◌, ◌&&◌,
  if◌then◌else◌, ◌≡◌, refl, ap, ◌∙◌, arith, inl, inr, Bool-cases,
}
use thecloud.Action.{ok, World, Env}
use thecloud.Infra.Types.{Instance, Volume, Tables, Backend}
use thecloud.Infra.Network.Repo.{refers_to}
use thecloud.Infra.Compute.Repo.{delete_instance_row, is_owned, without_instance}
use thecloud.Infra.Storage.Repo.{is_volume, set_volume_columns, list_by_instance, update_volume}
use thecloud.Infra.Compute.Lifecycle.{
  freed, release_all, release_attached_volumes, remove_container, terminate_found,
}

abbrev pub volume_key : Volume → ℕ
volume_key v = v.id

-- The updates of the loop, on the table.
abbrev free_all : List Volume → List Volume → List Volume
free_all [] table = table
free_all (v ∷ vs) table =
    free_all vs (modify (is_volume v.id v.user_id) (set_volume_columns (freed v)) table)

-- A volume of a table with another key is left alone.
modify-other :
    (v : Volume) (table : List Volume)
    → any (has_key volume_key v.id) table ≡ false
    → modify (is_volume v.id v.user_id) (set_volume_columns (freed v)) table ≡ table
modify-other v [] h = refl
modify-other v (x ∷ xs) h = ground (arith, modify-other v xs)

modify-own :
    (v : Volume) (table : List Volume)
    → any (has_key volume_key v.id) table ≡ false
    → modify (is_volume v.id v.user_id) (set_volume_columns (freed v)) (v ∷ table) ≡ freed v ∷ table
modify-own v table h = ground (arith, modify-other v table h)

free_all-other :
    (vs : List Volume) (x : Volume) (table : List Volume)
    → any (has_key volume_key x.id) vs ≡ false
    → free_all vs (x ∷ table) ≡ x ∷ free_all vs table
free_all-other [] x table h = refl
free_all-other (v ∷ vs) x table h =
    let miss : is_volume v.id v.user_id x ≡ false = ground arith in
    rw miss (
      free_all-other vs x (modify (is_volume v.id v.user_id) (set_volume_columns (freed v)) table)
        (ground arith))

any-keep-false :
    (p q : Volume → Bool) (xs : List Volume) → any q xs ≡ false → any q (keep p xs) ≡ false
any-keep-false p q [] h = refl
any-keep-false p q (x ∷ xs) h = ground (arith, any-keep-false p q xs)

abbrev pub free_if : (Volume → Bool) → Volume → Volume
free_if p v = if p v then freed v else v

-- The loop over the volumes that pass a test frees these and no other.
free_all-keep :
    (p : Volume → Bool) (table : List Volume)
    → Keyed volume_key table
    → free_all (keep p table) table ≡ map (free_if p) table
free_all-keep p [] k = refl
free_all-keep p (x ∷ xs) k =
    let others : any (has_key volume_key x.id) (keep p xs) ≡ false =
      any-keep-false p (has_key volume_key x.id) xs k.0 in
    let tail = free_all-keep p xs k.1 in
    elim (Bool-cases (p x)) [
      | inl hit ↦ rw hit (
          ap (free_all (keep p xs)) (modify-own x xs k.0)
          ∙ (free_all-other (keep p xs) (freed x) xs others ∙ ap (λ l. freed x ∷ l) tail))
      | inr miss ↦ rw miss (free_all-other (keep p xs) x xs others ∙ ap (λ l. x ∷ l) tail)
    ]

-- The test of `ListByInstanceID`.
abbrev pub is_attached : Env → ℕ → Volume → Bool
is_attached e inst v = refers_to v.instance_id inst && v.user_id == e.user

-- The tables without an instance, and with its volumes free.
abbrev pub released : {O : Type 0} → Env → ℕ → Tables O → Tables O
released e id t =
    without_instance id e.user (record t { volumes = map (free_if (is_attached e id)) t.volumes })

module _ {O : Type 0} (b : Backend O) (e : Env) (answers : (n : ℕ) → e.fails n ≡ false) where
  update_volume-freed :
      (v : Volume) (w : World (Tables O))
      → (update_volume (freed v) e w).1.tables ≡ record w.tables {
        volumes = modify (is_volume v.id v.user_id) (set_volume_columns (freed v)) w.tables.volumes;
      }
  unfolding update_volume
  update_volume-freed v w = ground (arith, answers w.tick)

  release_all_lem :
      (vs : List Volume) (w : World (Tables O))
      → (release_all vs e w).1.tables ≡ record w.tables { volumes = free_all vs w.tables.volumes }
  unfolding release_all
  release_all_lem [] w = refl
  release_all_lem (v ∷ vs) w =
      release_all_lem vs (update_volume (freed v) e w).1
      ∙ ap (λ (t : Tables O). record t { volumes = free_all vs t.volumes })
          (update_volume-freed v w)

  release_attached_volumes_lem :
      (inst : ℕ) (w : World (Tables O))
      → Keyed volume_key w.tables.volumes
      → (release_attached_volumes inst e w).1.tables
        ≡ record w.tables { volumes = map (free_if (is_attached e inst)) w.tables.volumes }
  unfolding release_attached_volumes list_by_instance
  release_attached_volumes_lem inst w k =
      let vs = keep (is_attached e inst) w.tables.volumes in
      let start : (release_attached_volumes inst e w).1.tables
          ≡ (release_all vs e (record w { tick = suc w.tick })).1.tables =
        ground (arith, answers w.tick) in
      start
      ∙ (release_all_lem vs (record w { tick = suc w.tick })
          ∙ ap (λ l. record w.tables { volumes = l })
              (free_all-keep (is_attached e inst) w.tables.volumes k))

  delete_instance_row_lem :
      (id : ℕ) (w : World (Tables O))
      → any (is_owned id e.user) w.tables.instances ≡ true
      → ((delete_instance_row b id e w).0 ≡ ok tt)
        × ((delete_instance_row b id e w).1.tables ≡ without_instance id e.user w.tables)
  unfolding delete_instance_row
  delete_instance_row_lem id w there =
      (ground (arith, answers w.tick), ground (arith, answers w.tick))

  pub terminate_found_lem :
      (i : Instance) (w : World (Tables O))
      → Keyed volume_key w.tables.volumes
      → (remove_container b i e w).0 ≡ ok tt
      → any (is_owned i.id e.user) w.tables.instances ≡ true
      → ((terminate_found b i e w).0 ≡ ok tt)
        × ((terminate_found b i e w).1.tables ≡ released e i.id (remove_container b i e w).1.tables)
  unfolding terminate_found remove_container
  terminate_found_lem i w k gone there =
      let w1 = (remove_container b i e w).1 in
      let w2 = (release_attached_volumes i.id e w1).1 in
      let freed_rows = release_attached_volumes_lem i.id w1 k in
      let still : any (is_owned i.id e.user) w2.tables.instances ≡ true = rw freed_rows there in
      let (fine, rows) = delete_instance_row_lem i.id w2 still in
      (
        ground (arith, gone, fine),
        ground (arith, gone, fine, rows) ∙ ap (without_instance i.id e.user) freed_rows,
      )
