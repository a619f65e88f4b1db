-- ===== src/Hydra/Deletion/Split.antt =====
-- Which tasks `delete_tasks_from_group` deletes.
use m_scale.Common.{
  string_eq, ℕ, zero, suc, ◌≡◌, refl, arith, some, List, [], ◌∷◌, ◌++◌, length, ap, String, ok, ◌≤◌,
  ◌-◌, sym, ◌∙◌, length-append, true, if◌then◌else◌, ltb,
}
use m_scale.Hydra.Deletion.{
  rsplit_first, pred_ℤ, pop, Backend, delete_loop, delete_tasks_from_group, after_loop, pos,
  refresh_app_info,
}
use m_scale.Hydra.Apps.Refresh.{refresh_app_info_lem}
use m_scale.Dict.{has_key}
use m_scale.Hydra.{Task, Backend, AppGroup, Hydra}
use m_scale.Hydra.Apps.{refresh_app_info}

-- `list(reversed(xs))`
abbrev pub back : {A : Type 0} → List A → List A
back [] = []
back (x ∷ xs) = back xs ++ x ∷ []

append_assoc : {A : Type 0} (xs ys zs : List A) → (xs ++ ys) ++ zs ≡ xs ++ (ys ++ zs)
append_assoc [] ys zs = refl
append_assoc (x ∷ xs) ys zs = ap (λ l. x ∷ l) (append_assoc xs ys zs)

length-back : {A : Type 0} (xs : List A) → length (back xs) ≡ length xs
length-back [] = refl
length-back (x ∷ xs) = ground (arith, length-append (back xs) (x ∷ []), length-back xs)

append_nil : {A : Type 0} (xs : List A) → xs ++ [] ≡ xs
append_nil [] = refl
append_nil (x ∷ xs) = ap (λ l. x ∷ l) (append_nil xs)

regroup :
    {A : Type 0} (xs ys : List A) {left all : List A} (t : A)
    → xs ++ ys ≡ left
    → left ++ t ∷ [] ≡ all
    → xs ++ (ys ++ t ∷ []) ≡ all
regroup xs ys t e q = sym (append_assoc xs ys (t ∷ [])) ∙ ap (λ l. l ++ t ∷ []) e ∙ q

pop_lem :
    {A : Type 0} (xs : List A) (n : ℕ)
    → length xs ≡ suc n
    → (ys : List A) × (y : A) × (pop xs ≡ some (ys, y)) × (ys ++ y ∷ [] ≡ xs) × (length ys ≡ n)
unfolding pop
pop_lem [] n e = absurd (ground arith)
pop_lem (x ∷ []) n e = ([], x, refl, refl, ground arith)
pop_lem (x ∷ y ∷ xs) zero e = absurd (ground arith)
pop_lem (x ∷ y ∷ xs) (suc n) e =
    let (ys, z, p, q, l) = pop_lem (y ∷ xs) n (ground arith) in
    (x ∷ ys, z, ground (arith, p), ground (arith, q), ground (arith, l))

module _ {W : Type 0} (b : Backend W)
    (kills : (app t : String) (w : W) → (w' : W) × (b.kill_task app t w ≡ (ok tt, w'))) where
  delete_loop_lem :
      (n : ℕ) (deleted : List String) (g : AppGroup) (h : Hydra W)
      → n ≤ length g.tasks_list
      → (del : List String) × (g' : AppGroup) × (w' : W) × (delete_loop b n deleted (g, h)
          ≡ (ok (some (deleted ++ del)), (g', record h { world = w' })))
        × (length del ≡ n)
        × (g'.tasks_list ++ back del ≡ g.tasks_list)
        × (g'.app_name ≡ g.app_name)
  unfolding delete_loop
  delete_loop_lem zero deleted g h l =
      ([], g, h.world, ground (arith, append_nil deleted), refl, append_nil g.tasks_list, refl)
  delete_loop_lem (suc n) deleted g h l =
      let (left, t, p, q, m) = pop_lem g.tasks_list (length g.tasks_list - 1) (ground arith) in
      let (w, k) = kills g.app_name (rsplit_first t) h.world in
      let g1 = record g { tasks_list = left; num_tasks = pred_ℤ g.num_tasks } in
      let (del, g', w', r, d, e, a) =
        delete_loop_lem n (deleted ++ t ∷ []) g1 (record h { world = w }) (ground arith) in
      (
        t ∷ del,
        g',
        w',
        ground (arith, p, k, r, append_assoc deleted (t ∷ []) del),
        ground (arith, d),
        regroup g'.tasks_list (back del) t e q,
        a,
      )

  -- `delete_tasks_from_group` of a known app, where marathon kills each task and lists those that
  -- run: it returns the last tasks of the group, the very last one first, as many as asked for or
  -- all; the others stay, in their order.
  pub delete_tasks_from_group-back :
      (ip_of : String → String) (tasks_of : W → List Task)
      → ((host : String) (w : W) → b.get_ip host w ≡ (ok (ip_of host), w))
      → ((app : String) (w : W) → b.get_tasks app w ≡ (ok (tasks_of w), w))
      → (num : ℕ) (g : AppGroup) (h : Hydra W) → has_key h.apps g.app_name ≡ true
      → (del : List String) × (g' : AppGroup) × (h' : Hydra W) × (delete_tasks_from_group b
            (pos num)
            (g, h)
          ≡ (ok (some del), (g', h')))
        × (g'.tasks_list ++ back del ≡ g.tasks_list)
        × (length del ≡ (if ltb (length g.tasks_list) num then length g.tasks_list else num))
  unfolding delete_tasks_from_group after_loop
  delete_tasks_from_group-back ip_of tasks_of ips gets_tasks num g h there =
      let n = if ltb (length g.tasks_list) num then length g.tasks_list else num in
      let (del, g', w', r, d, e, a) = delete_loop_lem n [] g h (ground arith) in
      let h1 = record h { world = w' } in
      let fresh =
        refresh_app_info_lem b g.app_name ip_of ips (tasks_of w') h1 (gets_tasks g.app_name w')
          there in
      let size = ap length e in
      (
        del,
        g',
        (refresh_app_info b g.app_name h1).1,
        ground
            (arith, r, a, fresh, d, size, length-append g'.tasks_list (back del), length-back del),
        e,
        d,
      )
