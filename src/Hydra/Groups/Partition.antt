-- ===== src/Hydra/Groups/Partition.antt =====
-- No task is in two groups, and none is in one group twice.
use m_scale.Common.{
  ok, err, some, none, refl, ◌≡◌, true, false, some, String, arith, string_eq, ◌==◌, contains,
  IsDistinct, eq_iff, List, ◌++◌, ◌∷◌, contains-append, Bool-cases, inl, inr, [], ◌&&◌, Result, not,
  Option, ℕ, ok, after_result, ap, ◌||◌, if◌then◌else◌, ltb, length,
}
use m_scale.Dict.{
  Dict, lookup, insert, HasKeysOnce, lookup-insert, insert-HasKeysOnce, delete, delete-HasKeysOnce,
  values, lookup-delete,
}
use m_scale.Hydra.{AppGroup, Backend, Hydra, some_or_fail}
use m_scale.Hydra.Groups.{
  missing_from, add_tasks_to_group, is_taken, fill_group, assign, register, pick_all,
  create_app_instances_group, pos, delete_app_instances_group,
}
use m_scale.Hydra.Groups.Picking.{IsChoice, pick_all_nil-IsChoice}

abbrev pub Groups : Type 0
Groups = Dict String AppGroup

pub record IsPartition (d : Groups) : Type 0 where
  pub once : HasKeysOnce d
  pub distinct : (g : String) (a : AppGroup) → lookup d g ≡ some a → IsDistinct a.tasks_list
  pub disjoint :
      (g j : String) (a b : AppGroup) (t : String)
      → lookup d g ≡ some a
      → lookup d j ≡ some b
      → (g == j) ≡ false
      → contains a.tasks_list t ≡ true
      → contains b.tasks_list t ≡ false

-- A new group that is empty, or whose tasks are in no other group.
insert-IsPartition :
    (d : Groups) (n : String) (new : AppGroup)
    → IsPartition d
    → IsDistinct new.tasks_list
    → ((j : String) (b : AppGroup) (t : String)
        → lookup d j ≡ some b
        → (n == j) ≡ false
        → contains new.tasks_list t ≡ true
        → contains b.tasks_list t ≡ false)
    → IsPartition (insert d n new)
insert-IsPartition d n new p own apart = record {
  once = insert-HasKeysOnce d n new p.once;
  distinct = λ g a h. ground (arith, lookup-insert d n g new, p.distinct g a, own);
  disjoint = λ g j a b t h k ne m. ground (
    arith,
    lookup-insert d n g new,
    lookup-insert d n j new,
    eq_iff n g,
    eq_iff n j,
    eq_iff g j,
    p.disjoint g j a b t,
    apart j b t,
    apart g a t,
  );
}

delete-IsPartition : (d : Groups) (n : String) → IsPartition d → IsPartition (delete d n)
delete-IsPartition d n p = record {
  once = delete-HasKeysOnce d n p.once;
  distinct = λ g a h. ground (arith, lookup-delete d n g p.once, p.distinct g a);
  disjoint = λ g j a b t h k ne m.
      ground (arith, lookup-delete d n g p.once, lookup-delete d n j p.once, p.disjoint g j a b t);
}

contains-missing_from :
    (present added : List String) (t : String)
    → contains (missing_from present added) t ≡ (contains added t && not (contains present t))
unfolding missing_from
contains-missing_from present [] t = refl
contains-missing_from present (x ∷ added) t = ground (
  arith,
  eq_iff x t,
  contains-missing_from present added t,
  contains-missing_from (x ∷ present) added t,
)

missing_from-IsDistinct : (present added : List String) → IsDistinct (missing_from present added)
unfolding missing_from
missing_from-IsDistinct present [] = tt
missing_from-IsDistinct present (x ∷ added) = ground (
  arith,
  missing_from-IsDistinct present added,
  missing_from-IsDistinct (x ∷ present) added,
  contains-missing_from (x ∷ present) added x,
  eq_iff x x,
)

append-IsDistinct :
    (xs ys : List String)
    → IsDistinct xs
    → IsDistinct ys
    → ((t : String) → contains xs t ≡ true → contains ys t ≡ false)
    → IsDistinct (xs ++ ys)
append-IsDistinct [] ys d e apart = e
append-IsDistinct (x ∷ xs) ys d e apart =
    let rest = append-IsDistinct xs ys d.1 e λ t m. apart t (ground arith) in
    ground (arith, contains-append xs ys x, apart x, eq_iff x x, rest)

-- `add_tasks_to_group` makes the union: a task is in the group afterwards exactly if it was, or is
-- among those added; and where no task was in the group twice, none is afterwards.
pub add_tasks_to_group-union :
    (g : AppGroup) (added : List String)
    → IsDistinct g.tasks_list
    → ((t : String)
        → contains (add_tasks_to_group g added).tasks_list t
          ≡ (contains g.tasks_list t || contains added t))
      × IsDistinct (add_tasks_to_group g added).tasks_list
unfolding add_tasks_to_group
add_tasks_to_group-union g added d = (
  λ t. ground (
    arith,
    contains-append g.tasks_list (missing_from g.tasks_list added) t,
    contains-missing_from g.tasks_list added t,
  ),
  append-IsDistinct g.tasks_list (missing_from g.tasks_list added) d
      (missing_from-IsDistinct g.tasks_list added)
      λ t m. ground (arith, contains-missing_from g.tasks_list added t),
)

free_of_lookup :
    (d : Groups) (picked : List String) (g : String) (a : AppGroup) (t : String)
    → is_taken (values d) picked t ≡ false
    → lookup d g ≡ some a
    → contains a.tasks_list t ≡ false
unfolding is_taken
free_of_lookup [] picked g a t h k = absurd (cc)
free_of_lookup ((i, v) ∷ d) picked g a t h k = ground (arith, free_of_lookup d picked g a t)

values-insert :
    (d : Groups) (n : String) (v : AppGroup)
    → (g : AppGroup) × (gs : List AppGroup) × (values (insert d n v) ≡ g ∷ gs)
values-insert [] n v = (v, [], refl)
values-insert ((i, w) ∷ d) n v = elim (Bool-cases (i == n)) [
  | inl hit ↦ (v, values d, rw hit)
  | inr miss ↦ (w, values (insert d n v), rw miss)
]

module _ {W : Type 0} where
  fill_group-IsPartition :
      (n : String) (g : AppGroup) (r : Result (Option (List String))) (ids : List String)
      (h : Hydra W)
      → g.tasks_list ≡ []
      → ((tasks : List String) → r ≡ ok (some tasks) → IsChoice (values h.app_group) ids tasks)
      → IsPartition h.app_group
      → IsPartition (after_result r (fill_group n g) h).1.app_group
  unfolding fill_group
  fill_group-IsPartition n g (err e) ids h empty c p = p
  fill_group-IsPartition n g (ok none) ids h empty c p = p
  fill_group-IsPartition n g (ok (some tasks)) ids h empty c p =
      let union = add_tasks_to_group-union g tasks (rw empty tt) in
      insert-IsPartition h.app_group n (add_tasks_to_group g tasks) p union.1 λ j b t k ne m.
        let there : contains tasks t ≡ true =
          ground (arith, union.0 t, ap (λ l. contains l t) empty) in
        free_of_lookup h.app_group [] j b t ((c tasks refl).free t there) k

  -- The rest of `register`, once the group is there: `o` is what `all_task_ids` holds.
  registered :
      (b : Backend W) (fuel : ℕ) (n : String) (num : ℕ) (g : AppGroup) (h : Hydra W)
      (o : Option (List String))
      → g.tasks_list ≡ []
      → ((v : AppGroup) × (vs : List AppGroup) × (values h.app_group ≡ v ∷ vs))
      → IsPartition h.app_group
      → IsPartition (after_result (some_or_fail o) (assign b fuel n num g) h).1.app_group
  unfolding assign
  registered b fuel n num g h none empty vs p = p
  registered b fuel n num g h (some ids) empty (v, vs, e) p =
      let wanted = if ltb (length ids) num then length ids else num in
      let (r, w) = pick_all b fuel (values h.app_group) ids wanted [] h.world in
      fill_group-IsPartition n g r ids (record h { world = w }) empty
        (λ tasks got.
          (pick_all_nil-IsChoice b fuel (values h.app_group) ids wanted h.world (v, vs, e) got).0)
        p

  register-IsPartition :
      (b : Backend W) (fuel : ℕ) (n : String) (num : ℕ) (g : AppGroup) (h : Hydra W)
      → g.tasks_list ≡ []
      → IsPartition h.app_group
      → IsPartition (register b fuel n num g h).1.app_group
  unfolding register
  register-IsPartition b fuel n num g h empty p =
      let d = insert h.app_group n g in
      let q =
        insert-IsPartition h.app_group n g p (rw empty tt)
          λ j a t k ne m. absurd (ground (arith, ap (λ l. contains l t) empty)) in
      registered b fuel n num g (record h { app_group = d }) (lookup h.all_task_ids g.app_name)
        empty (values-insert h.app_group n g) q

  -- `create_app_instances_group` keeps the groups apart and free of duplicates, whether it returns the
  -- group, returns 1 or raises, and for every choice that `random` makes.
  pub create_app_instances_group-IsPartition :
      (b : Backend W) (fuel : ℕ) (app_name group_name : String) (num : ℕ) (h : Hydra W)
      → IsPartition h.app_group
      → IsPartition (create_app_instances_group b fuel app_name group_name num h).1.app_group
  unfolding create_app_instances_group
  create_app_instances_group-IsPartition b fuel app_name group_name num h p =
      let new : AppGroup = record { app_name = app_name; num_tasks = pos num; tasks_list = [] } in
      ground (arith, register-IsPartition b fuel group_name num new h refl p)

  -- So does `delete_app_instances_group`.
  delete_app_instances_group-IsPartition :
      (n : String) (h : Hydra W)
      → IsPartition h.app_group
      → IsPartition (delete_app_instances_group n h).1.app_group
  unfolding delete_app_instances_group
  delete_app_instances_group-IsPartition n h p = ground (arith, delete-IsPartition h.app_group n p)
