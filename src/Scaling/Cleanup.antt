-- ===== src/Scaling/Cleanup.antt =====
-- Scaling in and the clean-up of a deleted group, in internal/core/services/autoscaling_worker.go.
-- The services outside may do what they like; the database answers.
use thecloud.Prelude.{
  ℕ, true, false, Option, none, some, List, [], ◌∷◌, map, Text, keep, any, All, All-imp, ◌==◌, not,
  ◌≡◌, refl, inl, inr, arith, Bool-cases, ==_refl, any-keep-not, ◌∙◌, ap, sym, subst, keep-keep-not,
}
use thecloud.Action.{ok, World, Env}
use thecloud.Scaling.Types.{ScalingGroup, Link, Tables, Fleet}
use thecloud.Scaling.Repo.{
  is_link, is_own, instances_of, remove_instance_from_group, delete_group_row,
}
use thecloud.Scaling.Reconcile.{leave_balancer, scale_in}
use thecloud.Scaling.Worker.{cleanup_all, cleanup_group}

-- The links without those of a group to the instances of a list.
abbrev pub without : ℕ → List ℕ → List Link → List Link
without id is = keep (λ l. not (any (λ i. is_link id i l) is))

without-cons :
    (id i : ℕ) (is : List ℕ) (ls : List Link)
    → without id is (keep (λ l. not (is_link id i l)) ls) ≡ without id (i ∷ is) ls
without-cons id i is [] = refl
without-cons id i is (l ∷ ls) = ground (arith, without-cons id i is ls)

without-nil : (id : ℕ) (ls : List Link) → without id [] ls ≡ ls
without-nil id [] = refl
without-nil id (l ∷ ls) = ap (λ (k : List Link). l ∷ k) (without-nil id ls)

-- Every link of the group is to an instance of the list.
abbrev Covered : ℕ → List ℕ → List Link → Type 0
Covered id is = All (λ (l : Link). (l.0 == id) ≡ true → any (λ i. is_link id i l) is ≡ true)

Covered-cons : (id i : ℕ) (is : List ℕ) (ls : List Link) → Covered id is ls → Covered id (i ∷ is) ls
Covered-cons id i is ls =
    All-imp (λ (l : Link). (l.0 == id) ≡ true → any (λ i. is_link id i l) is ≡ true)
      (λ l. (l.0 == id) ≡ true → any (λ j. is_link id j l) (i ∷ is) ≡ true) ls
      (λ l h same. ground (arith, h same))

covered : (id : ℕ) (ls : List Link) → Covered id (instances_of id ls) ls
covered id [] = tt
covered id (l ∷ ls) = elim (Bool-cases (l.0 == id)) [
  | inl own ↦
      let here : instances_of id (l ∷ ls) ≡ l.1 ∷ instances_of id ls = ground arith in
      subst (λ is. Covered id is (l ∷ ls)) (sym here)
        (
          (λ same. ground (arith, ==_refl l.1)),
          Covered-cons id l.1 (instances_of id ls) ls (covered id ls),
        )
  | inr other ↦
      let here : instances_of id (l ∷ ls) ≡ instances_of id ls = ground arith in
      subst (λ is. Covered id is (l ∷ ls)) (sym here) ((λ same. ground arith), covered id ls)
]

instances_of-without :
    (id : ℕ) (is : List ℕ) (ls : List Link)
    → Covered id is ls
    → instances_of id (without id is ls) ≡ []
instances_of-without id is [] c = refl
instances_of-without id is (l ∷ ls) c = ground (arith, c.0, instances_of-without id is ls c.1)

module _ {O : Type 0} (fleet : Fleet O) (unique_name : Text → ℕ → Text) (e : Env)
    (quiet : (n : ℕ) → e.fails n ≡ false) where
  leave_balancer_lem :
      (lb : Option ℕ) (inst : ℕ) (w : World (Tables O))
      → (let o = leave_balancer fleet unique_name lb inst e w in
          (o.0 ≡ ok tt)
          × (o.1.tables.links ≡ w.tables.links)
          × (o.1.tables.groups ≡ w.tables.groups))
  unfolding leave_balancer
  leave_balancer_lem none inst w = (refl, refl, refl)
  leave_balancer_lem (some lb) inst w = (refl, refl, refl)

  -- Scaling in takes one link away, whatever the balancer and the terminated instance answer.
  scale_in_lem :
      (g : ScalingGroup) (inst : ℕ) (w : World (Tables O))
      → (let o = scale_in fleet unique_name g inst e w in
          (o.0 ≡ ok tt)
          × (o.1.tables.links ≡ keep (λ l. not (is_link g.id inst l)) w.tables.links)
          × (o.1.tables.groups ≡ w.tables.groups))
  unfolding scale_in remove_instance_from_group
  scale_in_lem g inst w =
      let (left, links, groups) = leave_balancer_lem g.load_balancer_id inst w in
      let fine = quiet (leave_balancer fleet unique_name g.load_balancer_id inst e w).1.tick in
      (
        ground (arith, left, links, groups, fine),
        ground (arith, left, links, groups, fine),
        ground (arith, left, links, groups, fine),
      )

  cleanup_all_lem :
      (g : ScalingGroup) (is : List ℕ) (w : World (Tables O))
      → (cleanup_all fleet unique_name g is e w).1.tables.links ≡ without g.id is w.tables.links
  unfolding cleanup_all
  cleanup_all_lem g [] w = rw without-nil refl
  cleanup_all_lem g (i ∷ is) w =
      let g0 : ScalingGroup = record g { desired_count = 0 } in
      let w1 : World (Tables O) = (scale_in fleet unique_name g0 i e w).1 in
      cleanup_all_lem g is w1
      ∙ ap (without g.id is) (scale_in_lem g0 i w).1
      ∙ without-cons g.id i is w.tables.links

  delete_group_row_lem :
      (g : ScalingGroup) (w : World (Tables O))
      → instances_of g.id w.tables.links ≡ []
      → (let w' = (cleanup_group fleet unique_name g [] e w).1 in
          (any (is_own g.id e.user) w'.tables.groups ≡ false)
          × (instances_of g.id w'.tables.links ≡ []))
  unfolding cleanup_group delete_group_row
  delete_group_row_lem g w empty = elim (Bool-cases (any (is_own g.id e.user) w.tables.groups)) [
    | inl there ↦
        rw (there, quiet)
          (
            any-keep-not (is_own g.id e.user) w.tables.groups,
            ap (map (λ (l : Link). l.1)) (keep-keep-not (λ (l : Link). l.0 == g.id) w.tables.links),
          )
    | inr missing ↦ rw (missing, quiet) (missing, empty)
  ]

  first_round :
      (g : ScalingGroup) (is : List ℕ) (w : World (Tables O))
      → instances_of g.id w.tables.links ≡ is
      → instances_of g.id (cleanup_group fleet unique_name g is e w).1.tables.links ≡ []
  unfolding cleanup_group
  first_round g [] w h = (delete_group_row_lem g w h).1
  first_round g (i ∷ is) w h =
      ap (instances_of g.id) (cleanup_all_lem g (i ∷ is) w)
      ∙ instances_of-without g.id (i ∷ is) w.tables.links
          (subst (λ js. Covered g.id js w.tables.links) h (covered g.id w.tables.links))

  -- Two rounds of the worker remove a group that is to be deleted, its last link included: the
  -- first takes away the instances that it was shown, and the second the group's row.
  pub cleanup_group-twice :
      (g : ScalingGroup) (w : World (Tables O))
      → (let round = λ (v : World (Tables O)).
            (cleanup_group fleet unique_name g (instances_of g.id v.tables.links) e v).1 in
          let w' = round (round w) in
          (any (is_own g.id e.user) w'.tables.groups ≡ false)
          × (instances_of g.id w'.tables.links ≡ []))
  cleanup_group-twice g w =
      let w1 : World (Tables O) =
        (cleanup_group fleet unique_name g (instances_of g.id w.tables.links) e w).1 in
      let empty = first_round g (instances_of g.id w.tables.links) w refl in
      subst
        (λ is.
          (any (is_own g.id e.user) (cleanup_group fleet unique_name g is e w1).1.tables.groups
            ≡ false)
          × (instances_of g.id (cleanup_group fleet unique_name g is e w1).1.tables.links ≡ []))
        (sym empty) (delete_group_row_lem g w1 empty)
