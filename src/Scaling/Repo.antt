-- ===== src/Scaling/Repo.antt =====
-- internal/repositories/postgres/autoscaling_repo.go, with the constraints of migration 011.
use thecloud.Prelude.{
  ℕ, ◌+◌, Bool, Option, none, some, List, [], ◌∷◌, ◌++◌, map, Text, text_eq, keep, find?, any,
  modify, length, leb, ltb, ◌==◌, ◌&&◌, ◌||◌, not, if◌then◌else◌,
}
use thecloud.Errors.{new, plain, not_found, conflict}
use thecloud.Action.{Result, ok, err, Action, Done, pure, call}
use thecloud.Scaling.Types.{ScalingGroup, ScalingPolicy, Link, Tables, max_instances_hard_limit}

-- The CHECK constraints of `scaling_groups`.
abbrev pub checks : ScalingGroup → Bool
checks g =
    leb g.max_instances max_instances_hard_limit
    && leb g.min_instances g.max_instances
    && leb g.min_instances g.desired_count
    && leb g.desired_count g.max_instances

-- A row as the queries read it: the columns of the failures are not among those selected.
abbrev pub scanned : ScalingGroup → ScalingGroup
scanned g = record g { failure_count = 0; last_failure_at = none }

abbrev row_or_missing : Option ScalingGroup → Result ScalingGroup
row_or_missing none = err (new not_found)
row_or_missing (some g) = ok (scanned g)

-- Keys are unique where there is one; names always are.
abbrev pub clashes : ScalingGroup → ScalingGroup → Bool
clashes g h =
    (h.id == g.id)
    || text_eq h.name g.name
    || (text_eq h.idempotency_key g.idempotency_key && not (text_eq g.idempotency_key []))

-- What the constraints of `scaling_groups` refuse in a new row.
abbrev pub refuses_group : {O : Type 0} → ScalingGroup → Tables O → Bool
refuses_group g t =
    any (clashes g) t.groups || not (checks g) || not (any (λ (v : ℕ × ℕ). v.0 == g.vpc_id) t.vpcs)

abbrev pub is_version : ScalingGroup → ScalingGroup → Bool
is_version g row = row.id == g.id && row.version == g.version && row.user_id == g.user_id

abbrev pub is_own : ℕ → ℕ → ScalingGroup → Bool
is_own id user g = g.id == id && g.user_id == user

-- The columns that `UpdateGroup` sets; `current_count` and the failures are not among them.
abbrev pub set_columns : ScalingGroup → ScalingGroup → ScalingGroup
set_columns g row = record row {
  name = g.name;
  min_instances = g.min_instances;
  max_instances = g.max_instances;
  desired_count = g.desired_count;
  status = g.status;
  version = row.version + 1;
}

abbrev name_taken : ScalingGroup → ScalingGroup → Bool
name_taken g row = text_eq row.name g.name && not (row.id == g.id)

-- What the constraints refuse in a changed row.
abbrev pub refuses_change : {O : Type 0} → ScalingGroup → Tables O → Bool
refuses_change g t = not (checks g) || any (name_taken g) t.groups

-- What the constraints of `scaling_policies` refuse.
abbrev pub refuses_policy : {O : Type 0} → ScalingPolicy → Tables O → Bool
refuses_policy p t =
    any
      (λ (q : ScalingPolicy).
        q.id == p.id || (q.scaling_group_id == p.scaling_group_id && text_eq q.name p.name))
      t.policies
    || not (any (λ (g : ScalingGroup). g.id == p.scaling_group_id) t.groups)
    || not (ltb 0 p.target_value && leb p.target_value 10000)
    || not (ltb 0 p.scale_out_step && ltb 0 p.scale_in_step && leb 60 p.cooldown_sec)

-- The entry of a group in the map that `GetAllPolicies` returns.
abbrev pub policies_of : ℕ → List ScalingPolicy → List ScalingPolicy
policies_of id = keep (λ (p : ScalingPolicy). p.scaling_group_id == id)

abbrev pub is_link : ℕ → ℕ → Link → Bool
is_link group inst l = l.0 == group && l.1 == inst

-- What the constraints of `scaling_group_instances` refuse: the pair is the key, and the group must
-- be there.
abbrev pub refuses_link : {O : Type 0} → ℕ → ℕ → Tables O → Bool
refuses_link group inst t =
    any (is_link group inst) t.links || not (any (λ (g : ScalingGroup). g.id == group) t.groups)

-- The entry of a group in the map that `GetAllScalingGroupInstances` returns.
abbrev pub instances_of : ℕ → List Link → List ℕ
instances_of id ls = map (λ (l : Link). l.1) (keep (λ (l : Link). l.0 == id) ls)

-- A group's row goes, and the cascades take its policies and links.
abbrev pub without_group : {O : Type 0} → ℕ → ℕ → Tables O → Tables O
without_group id user t = record t {
  groups = keep (λ g. not (is_own id user g)) t.groups;
  policies = keep (λ (p : ScalingPolicy). not (p.scaling_group_id == id)) t.policies;
  links = keep (λ (l : Link). not (l.0 == id)) t.links;
}

abbrev pub delete_rows : {O : Type 0} → ℕ → ℕ → Tables O → Result Done × Tables O
delete_rows id user t =
    if any (is_own id user) t.groups
    then (ok tt, without_group id user t)
    else (err (new not_found), t)

module _ {O : Type 0} where
  -- `CreateGroup`.
  unfoldable pub create_group_row : ScalingGroup → Action (Tables O) Done
  create_group_row g = call λ t.
      if refuses_group g t
      then (err plain, t)
      else (ok tt, record t { groups = t.groups ++ scanned g ∷ [] })

  -- `GetGroupByID`.
  unfoldable pub get_group_by_id : ℕ → Action (Tables O) ScalingGroup
  get_group_by_id id e w = call (λ t. (row_or_missing (find? (is_own id e.user) t.groups), t)) e w

  -- `GetGroupByIdempotencyKey`.
  unfoldable pub get_group_by_idempotency_key : Text → Action (Tables O) ScalingGroup
  get_group_by_idempotency_key key e w =
      call
        (λ t. (
          row_or_missing (
              find? (λ (g : ScalingGroup). text_eq g.idempotency_key key && g.user_id == e.user)
                t.groups),
          t,
        ))
        e w

  -- `ListGroups`.
  unfoldable pub list_groups : Action (Tables O) (List ScalingGroup)
  list_groups e w =
      call (λ t. (ok (map scanned (keep (λ (g : ScalingGroup). g.user_id == e.user) t.groups)), t))
        e w

  -- `ListAllGroups`.
  unfoldable pub list_all_groups : Action (Tables O) (List ScalingGroup)
  list_all_groups = call λ t. (ok (map scanned t.groups), t)

  -- `CountGroupsByVPC`.
  unfoldable pub count_groups_by_vpc : ℕ → Action (Tables O) ℕ
  count_groups_by_vpc vpc e w =
      call
        (λ t. (
          ok (
              length
                (keep (λ (g : ScalingGroup). g.vpc_id == vpc && g.user_id == e.user) t.groups)),
          t,
        ))
        e w

  -- `UpdateGroup`: optimistic locking on the version. The group comes back with its new version.
  unfoldable pub update_group : ScalingGroup → Action (Tables O) ScalingGroup
  update_group g = call λ t.
      if not (any (is_version g) t.groups)
      then (err (new conflict), t)
      else if refuses_change g t
      then (err plain, t)
      else (
        ok (record g { version = g.version + 1 }),
        record t { groups = modify (is_version g) (set_columns g) t.groups },
      )

  -- `DeleteGroup`, with the cascades to policies and links.
  unfoldable pub delete_group_row : ℕ → Action (Tables O) Done
  delete_group_row id e w = call (delete_rows id e.user) e w

  -- `CreatePolicy`, with the CHECK constraints of `scaling_policies`.
  unfoldable pub create_policy_row : ScalingPolicy → Action (Tables O) Done
  create_policy_row p = call λ t.
      if refuses_policy p t
      then (err plain, t)
      else (ok tt, record t { policies = t.policies ++ p ∷ [] })

  -- `GetAllPolicies`: no query without groups.
  unfoldable pub get_all_policies : List ℕ → Action (Tables O) (List ScalingPolicy)
  get_all_policies [] = pure []
  get_all_policies (i ∷ ids) = call λ t. (
    ok (keep (λ (p : ScalingPolicy). any (λ j. j == p.scaling_group_id) (i ∷ ids)) t.policies),
    t,
  )

  -- `UpdatePolicyLastScaled`.
  unfoldable pub update_policy_last_scaled : ℕ → ℕ → Action (Tables O) Done
  update_policy_last_scaled id time = call λ t. (
    ok tt,
    record t {
      policies =
          modify (λ (p : ScalingPolicy). p.id == id) (λ p. record p { last_scaled_at = some time })
            t.policies;
    },
  )

  -- `DeletePolicy`.
  unfoldable pub delete_policy_row : ℕ → Action (Tables O) Done
  delete_policy_row id = call λ t.
      (ok tt, record t { policies = keep (λ (p : ScalingPolicy). not (p.id == id)) t.policies })

  -- `AddInstanceToGroup`.
  unfoldable pub add_instance_to_group : ℕ → ℕ → Action (Tables O) Done
  add_instance_to_group group inst = call λ t.
      if refuses_link group inst t
      then (err plain, t)
      else (ok tt, record t { links = t.links ++ (group, inst) ∷ [] })

  -- `RemoveInstanceFromGroup`: no error if there is no such row.
  unfoldable pub remove_instance_from_group : ℕ → ℕ → Action (Tables O) Done
  remove_instance_from_group group inst =
      call λ t. (ok tt, record t { links = keep (λ l. not (is_link group inst l)) t.links })

  -- `GetAllScalingGroupInstances`.
  unfoldable pub get_all_instances : List ℕ → Action (Tables O) (List Link)
  get_all_instances [] = pure []
  get_all_instances (i ∷ ids) =
      call λ t. (ok (keep (λ (l : Link). any (λ j. j == l.0) (i ∷ ids)) t.links), t)
