-- ===== src/Scaling/Requests.antt =====
-- What the requests of internal/core/services/autoscaling.go may do to the tables.
use thecloud.Prelude.{
  ℕ, ◌≤◌, ◌<◌, Bool, true, false, some, List, [], ◌∷◌, ◌++◌, Text, text_eq, keep, find?, any,
  modify, length, ◌==◌, ◌&&◌, ◌||◌, ◌≡◌, ◌≢◌, refl, inl, inr, arith, Option-cases, ◌+◌, find?-true,
  find?-modify,
}
use thecloud.Prelude.Int.{ℤ, pos, negsuc, ltb_ℤ, to_ℕ}
use thecloud.Errors.{new, conflict}
use thecloud.Action.{ok, err, World, Env, bump}
use thecloud.Scaling.Types.{
  ScalingGroup, Tables, max_instances_hard_limit, max_scaling_groups_per_vpc,
}
use thecloud.Scaling.Repo.{
  scanned, is_version, is_own, set_columns, update_group, get_group_by_id,
  get_group_by_idempotency_key, count_groups_by_vpc, create_group_row,
}
use thecloud.Scaling.Service.{
  CreateScalingGroupParams, refused, get_vpc, find_existing, create_new_group, create_group,
  set_desired_capacity,
}

-- The groups of a user in a VPC.
abbrev pub in_vpc : ℕ → ℕ → ScalingGroup → Bool
in_vpc vpc user g = g.vpc_id == vpc && g.user_id == user

-- The tests leave three numbers that are not negative.
bounds_lem :
    (lo hi d : ℤ)
    → (ltb_ℤ (pos max_instances_hard_limit) hi
        || ltb_ℤ lo (pos 0)
        || ltb_ℤ hi lo
        || ltb_ℤ d lo
        || ltb_ℤ hi d)
      ≡ false
    → (lo ≡ pos (to_ℕ lo))
      × (hi ≡ pos (to_ℕ hi))
      × (d ≡ pos (to_ℕ d))
      × (to_ℕ lo ≤ to_ℕ d)
      × (to_ℕ d ≤ to_ℕ hi)
      × (to_ℕ hi ≤ max_instances_hard_limit)
bounds_lem (pos a) (pos b) (pos c) h = (refl, refl, refl, ground arith, ground arith, ground arith)
bounds_lem (pos a) (pos b) (negsuc c) h = absurd (ground arith)
bounds_lem (pos a) (negsuc b) d h = absurd (ground arith)
bounds_lem (negsuc a) (pos b) d h = absurd (ground arith)
bounds_lem (negsuc a) (negsuc b) d h = absurd (ground arith)

in_bounds :
    (d : ℤ) (lo hi : ℕ)
    → (ltb_ℤ d (pos lo) || ltb_ℤ (pos hi) d) ≡ false
    → (d ≡ pos (to_ℕ d)) × (lo ≤ to_ℕ d) × (to_ℕ d ≤ hi)
in_bounds (pos c) lo hi h = (refl, ground arith, ground arith)
in_bounds (negsuc c) lo hi h = absurd (ground arith)

module _ {O : Type 0} (e : Env) (w : World (Tables O)) where
  -- A new group is the caller's, in the VPC of the request, which is a VPC of the caller, who had
  -- fewer than five groups there, is stored as the last row, and has the numbers of the request,
  -- which are 0 ≤ min ≤ desired ≤ max ≤ 20.
  pub create_new_group-bounds :
      (p : CreateScalingGroupParams) {g : ScalingGroup}
      → (create_new_group p e w).0 ≡ ok g
      → (any (λ (v : ℕ × ℕ). v.0 == p.vpc_id && v.1 == e.user) w.tables.vpcs ≡ true)
        × (length (keep (in_vpc p.vpc_id e.user) w.tables.groups) < max_scaling_groups_per_vpc)
        × ((create_new_group p e w).1.tables.groups ≡ w.tables.groups ++ g ∷ [])
        × (g.vpc_id ≡ p.vpc_id)
        × (g.user_id ≡ e.user)
        × (p.min_instances ≡ pos g.min_instances)
        × (p.max_instances ≡ pos g.max_instances)
        × (p.desired_count ≡ pos g.desired_count)
        × (g.min_instances ≤ g.desired_count)
        × (g.desired_count ≤ g.max_instances)
        × (g.max_instances ≤ max_instances_hard_limit)
  unfolding create_new_group get_vpc count_groups_by_vpc create_group_row
  create_new_group-bounds p {g} done =
      let allowed : refused p ≡ false = ground arith in
      let (lo, hi, d, lower, upper, most) =
        bounds_lem p.min_instances p.max_instances p.desired_count allowed in
      let stored : (create_new_group p e w).1.tables.groups ≡ w.tables.groups ++ g ∷ [] =
        ground arith in
      let low : g.min_instances ≡ to_ℕ p.min_instances = ground arith in
      let high : g.max_instances ≡ to_ℕ p.max_instances = ground arith in
      let wanted : g.desired_count ≡ to_ℕ p.desired_count = ground arith in
      (
        ground arith,
        ground arith,
        stored,
        ground arith,
        ground arith,
        rw low lo,
        rw high hi,
        rw wanted d,
        rw (low, wanted) lower,
        rw (wanted, high) upper,
        rw high most,
      )

  update_group_steps :
      (g : ScalingGroup) {saved : ScalingGroup}
      → (update_group g e w).0 ≡ ok saved
      → (update_group g e w).1.tables.groups ≡ modify (is_version g) (set_columns g) w.tables.groups
  unfolding update_group
  update_group_steps g done = ground arith

  -- A version that has been written over is in no row.
  no_version :
      (g h : ScalingGroup) (rows : List ScalingGroup)
      → h.id ≡ g.id
      → h.version ≡ g.version
      → h.user_id ≡ g.user_id
      → any (is_version h) (modify (is_version g) (set_columns g) rows) ≡ false
  no_version g h [] id version user = refl
  no_version g h (x ∷ rows) id version user = ground (arith, no_version g h rows id version user)

  -- No update is lost: of two writers who read the same version of a group, the second is refused
  -- with a conflict and changes nothing.
  pub update_group-stale :
      (later : Env) (g h : ScalingGroup) {saved : ScalingGroup}
      → (update_group g e w).0 ≡ ok saved
      → h.id ≡ g.id
      → h.version ≡ g.version
      → h.user_id ≡ g.user_id
      → later.fails (update_group g e w).1.tick ≡ false
      → (let w' = (update_group g e w).1 in
          ((update_group h later w').0 ≡ err (new conflict))
          × ((update_group h later w').1.tables ≡ w'.tables))
  unfolding update_group
  update_group-stale later g h done id version user fine =
      let rows = update_group_steps g done in
      let stale : any (is_version h) (update_group g e w).1.tables.groups ≡ false =
        rw rows (no_version g h w.tables.groups id version user) in
      (ground (arith, stale, fine), ground (arith, stale, fine))

  find_existing_lem :
      (key : Text) {g : ScalingGroup}
      → key ≢ []
      → find?
          (λ (h : ScalingGroup). text_eq h.idempotency_key key && h.user_id == e.user)
          w.tables.groups
        ≡ some g
      → e.fails w.tick ≡ false
      → find_existing key e w ≡ (ok (some (scanned g)), bump w)
  unfolding find_existing get_group_by_idempotency_key
  find_existing_lem [] given found fine = absurd (given refl)
  find_existing_lem (b ∷ key) given found fine = ground arith

  -- A repeated request with a key that is not empty answers with the stored group of the caller
  -- that has the key, as the queries read it, and writes nothing.
  pub create_group-repeated :
      (p : CreateScalingGroupParams) {g : ScalingGroup}
      → p.idempotency_key ≢ []
      → find?
          (λ (h : ScalingGroup). text_eq h.idempotency_key p.idempotency_key && h.user_id == e.user)
          w.tables.groups
        ≡ some g
      → e.fails w.tick ≡ false
      → create_group p e w ≡ (ok (scanned g), bump w)
  unfolding create_group
  create_group-repeated p {g} key found fine =
      rw (find_existing_lem p.idempotency_key key found fine) refl

  -- `SetDesiredCapacity` succeeds only on a group of the caller and for a number within the
  -- group's bounds, and then that group has the number, the next version, and the bounds as they were.
  pub set_desired_capacity-bounds :
      (id : ℕ) (desired : ℤ)
      → (set_desired_capacity id desired e w).0 ≡ ok tt
      → (g : ScalingGroup) × (find? (is_own id e.user) w.tables.groups ≡ some g)
        × (desired ≡ pos (to_ℕ desired))
        × (g.min_instances ≤ to_ℕ desired)
        × (to_ℕ desired ≤ g.max_instances)
        × ((h : ScalingGroup) × (find?
                (is_own id e.user)
                (set_desired_capacity id desired e w).1.tables.groups
              ≡ some h)
            × (h.desired_count ≡ to_ℕ desired)
            × (h.version ≡ g.version + 1)
            × (h.min_instances ≡ g.min_instances)
            × (h.max_instances ≡ g.max_instances))
  unfolding set_desired_capacity get_group_by_id update_group
  set_desired_capacity-bounds id desired done =
      elim (Option-cases (find? (is_own id e.user) w.tables.groups)) [
        | inl missing ↦ ground arith
        | inr (g, found) ↦
            let (whole, lower, upper) =
              in_bounds desired g.min_instances g.max_instances (ground arith) in
            let wanted = record g { desired_count = to_ℕ desired } in
            let mine = find?-true (is_own id e.user) w.tables.groups g found in
            (
              g,
              found,
              whole,
              lower,
              upper,
              (
                set_columns wanted g,
                ground (
                  arith,
                  mine,
                  find?-modify (is_own id e.user) (is_version wanted) (set_columns wanted)
                      w.tables.groups (λ x. refl),
                ),
                refl,
                refl,
                refl,
                refl,
              ),
            )
      ]
