-- ===== src/Scaling/Tests.antt =====
-- One web group with two instances, and one that is to be deleted.
use thecloud.Prelude.{
  ◌⊎◌, ℕ, ◌+◌, ◌≤◌, ◌<◌, true, false, none, some, [], ◌∷◌, ◌++◌, Text, text, keep, find?, any,
  length, ◌==◌, ◌&&◌, ◌≡◌, refl,
}
use thecloud.Prelude.Int.{pos, to_ℕ}
use thecloud.Errors.{new, conflict}
use thecloud.Action.{err, World, Env, pure, new_id}
use thecloud.Scaling.Types.{
  ScalingGroup, ScalingPolicy, Tables, Fleet, active, deleting, cpu, max_instances_hard_limit,
  max_scaling_groups_per_vpc,
}
use thecloud.Scaling.Repo.{
  is_own, instances_of, update_group, count_groups_by_vpc, create_group_row, get_group_by_id,
}
use thecloud.Scaling.Service.{
  CreateScalingGroupParams, create_new_group, set_desired_capacity, get_vpc,
}
use thecloud.Scaling.Worker.{cleanup_group}
use thecloud.Scaling.Requests.{
  in_vpc, create_new_group-bounds, update_group-stale, set_desired_capacity-bounds,
}
use thecloud.Scaling.Reconcile.{reconcile_instances}
use thecloud.Scaling.Bounds.{reconcile_instances-bounds}
use thecloud.Scaling.Cleanup.{cleanup_group-twice}

abbrev web : ScalingGroup
web = record {
  id = 1;
  user_id = 7;
  idempotency_key = text "k";
  name = text "web";
  vpc_id = 5;
  load_balancer_id = some 9;
  image = text "nginx";
  ports = text "80:80";
  min_instances = 1;
  max_instances = 4;
  desired_count = 2;
  current_count = 2;
  status = active;
  failure_count = 0;
  last_failure_at = none;
  version = 3;
}

abbrev old : ScalingGroup
old = record web {
  id = 2;
  idempotency_key = [];
  name = text "old";
  min_instances = 0;
  desired_count = 0;
  status = deleting;
}

abbrev hot : ScalingPolicy
hot = record {
  id = 30;
  scaling_group_id = 1;
  name = text "hot";
  metric_type = cpu;
  target_value = 5000;
  scale_out_step = 3;
  scale_in_step = 1;
  cooldown_sec = 60;
  last_scaled_at = none;
}

abbrev start : World (Tables ℕ)
start = record {
  tables = record {
    groups = web ∷ old ∷ [];
    policies = hot ∷ [];
    links = (1, 11) ∷ (2, 21) ∷ (1, 12) ∷ [];
    vpcs = (5, 7) ∷ [];
    outside = 0;
  };
  journal = [];
  tick = 0;
}

abbrev quiet : Env
quiet = record { fails = λ n. false; clock = λ n. 1000; fresh = λ n. 100 + n; user = 7 }

abbrev calm : Fleet ℕ
calm = record {
  launch = λ name image ports vpc. new_id;
  terminate = λ inst. pure tt;
  add_target = λ lb inst. pure tt;
  remove_target = λ lb inst. pure tt;
  average_cpu = λ is since. pure 9000;
}

abbrev unique_name : Text → ℕ → Text
unique_name name time = name ++ time ∷ []

abbrev params : CreateScalingGroupParams
params = record {
  name = text "api";
  vpc_id = 5;
  image = text "nginx";
  ports = text "80:80";
  min_instances = pos 1;
  max_instances = pos 4;
  desired_count = pos 2;
  load_balancer_id = none;
  idempotency_key = [];
}

abbrev again : CreateScalingGroupParams
again = record params { idempotency_key = text "k" }

abbrev api : ScalingGroup
api = record web {
  id = 102;
  idempotency_key = [];
  name = text "api";
  load_balancer_id = none;
  current_count = 0;
  version = 1;
}

create_new_group-bounds_example :
    (any (λ (v : ℕ × ℕ). v.0 == 5 && v.1 == 7) start.tables.vpcs ≡ true)
    × (length (keep (in_vpc 5 7) start.tables.groups) < max_scaling_groups_per_vpc)
    × ((create_new_group params quiet start).1.tables.groups ≡ start.tables.groups ++ api ∷ [])
    × (api.vpc_id ≡ 5)
    × (api.user_id ≡ 7)
    × (params.min_instances ≡ pos 1)
    × (params.max_instances ≡ pos 4)
    × (params.desired_count ≡ pos 2)
    × (1 ≤ api.desired_count)
    × (2 ≤ api.max_instances)
    × (4 ≤ max_instances_hard_limit)
unfolding create_new_group get_vpc count_groups_by_vpc create_group_row
create_new_group-bounds_example = create_new_group-bounds quiet start params {g = api} refl

update_group-stale_example :
    (let w' = (update_group (record web { desired_count = 3 }) quiet start).1 in
      ((update_group (record web { desired_count = 4 }) quiet w').0 ≡ err (new conflict))
      × ((update_group (record web { desired_count = 4 }) quiet w').1.tables ≡ w'.tables))
unfolding update_group
update_group-stale_example =
    update_group-stale quiet start quiet (record web { desired_count = 3 })
      (record web { desired_count = 4 }) {saved = record web { desired_count = 3; version = 4 }}
      refl refl refl refl refl

set_desired_capacity-bounds_example :
    (g : ScalingGroup) × (find? (is_own 1 7) start.tables.groups ≡ some g)
    × (pos 3 ≡ pos (to_ℕ (pos 3)))
    × (g.min_instances ≤ to_ℕ (pos 3))
    × (to_ℕ (pos 3) ≤ g.max_instances)
    × ((h : ScalingGroup) × (find?
            (is_own 1 7)
            (set_desired_capacity 1 (pos 3) quiet start).1.tables.groups
          ≡ some h)
        × (h.desired_count ≡ 3)
        × (h.version ≡ g.version + 1)
        × (h.min_instances ≡ g.min_instances)
        × (h.max_instances ≡ g.max_instances))
unfolding set_desired_capacity get_group_by_id update_group
set_desired_capacity-bounds_example = set_desired_capacity-bounds quiet start 1 (pos 3) refl

cleanup_group-twice_example :
    (let round = λ (v : World (Tables ℕ)).
        (cleanup_group calm unique_name old (instances_of 2 v.tables.links) quiet v).1 in
      let w' = round (round start) in
      (any (is_own 2 7) w'.tables.groups ≡ false) × (instances_of 2 w'.tables.links ≡ []))
cleanup_group-twice_example = cleanup_group-twice calm unique_name quiet (λ n. refl) old start

-- A group that wants more instances than it may have.
abbrev greedy : ScalingGroup
greedy = record web { desired_count = 9 }

reconcile_instances-bounds_example :
    (let after =
        instances_of 1
          (reconcile_instances calm unique_name greedy (11 ∷ 12 ∷ []) quiet start).1.tables.links in
      (length after ≤ 4) ⊎ (length after ≤ 2))
reconcile_instances-bounds_example = reconcile_instances-bounds calm unique_name quiet start greedy
