-- ===== src/Hydra/Deletion.antt =====
-- Deleting tasks of a group (`AppGroup.delete_tasks_from_group`) and all apps that were launched.
pub mod Ids
pub mod Split
use Prim.Native.Char.{code}
use m_scale.Common.{
  ℕ, zero, suc, ◌+◌, ◌-◌, Bool, true, false, Option, none, some, String, List, [], ◌∷◌, ◌++◌, ok,
  err, Exec, pure, check, raise, gets, ◌>>=◌, ◌>>◌, length, nat_beq, ltb, if◌then◌else◌, Result,
  index_error, string_eq,
}
use m_scale.Integer.{ℤ, pos, negsuc}
use m_scale.Hydra.{AppGroup, Hydra, Backend, on_world}
use m_scale.Hydra.Apps.{refresh_app_info}
use m_scale.Hydra.Scaling.{delete_app}

-- The text in front of the last `_`, where there is one.
unfoldable pub before_last : String → Option String
before_last String.[] = none
before_last (String.◌∷◌ c s) = elim (before_last s) [
  | some t ↦ some (String.◌∷◌ c t)
  | none ↦ if nat_beq (code c) 95 then some "" else none
]

-- `s.rsplit('_', 1)[0]`
unfoldable pub rsplit_first : String → String
unfolding before_last
rsplit_first s = elim (before_last s) [ some t ↦ t | none ↦ s ]

-- `xs.pop()`: what is left and the last entry.
unfoldable pub pop : {A : Type 0} → List A → Option (List A × A)
pop [] = none
pop (x ∷ xs) = elim (pop xs) [ none ↦ some ([], x) | some (ys, y) ↦ some (x ∷ ys, y) ]

-- `n -= 1`
abbrev pub pred_ℤ : ℤ → ℤ
pred_ℤ (pos zero) = negsuc 0
pred_ℤ (pos (suc n)) = pos n
pred_ℤ (negsuc n) = negsuc (suc n)

module _ {W : Type 0} (b : Backend W) where
  -- The loop of `delete_tasks_from_group`, with the group beside the hydra; `none` where the source
  -- returns 1: a task that is popped and not killed is in the group no more.
  unfoldable pub delete_loop : ℕ → List String → Exec (AppGroup × Hydra W) (Option (List String))
  unfolding pop rsplit_first
  delete_loop zero deleted s = (ok (some deleted), s)
  delete_loop (suc n) deleted (g, h) = elim (pop g.tasks_list) [
    | none ↦ (ok none, (g, h))
    | some (left, t) ↦
        let (r, h') = on_world (b.kill_task g.app_name (rsplit_first t)) h in
        let rest =
          delete_loop n (deleted ++ t ∷ [])
            (record g { tasks_list = left; num_tasks = pred_ℤ g.num_tasks }, h') in
        elim r [ err e ↦ (ok none, (record g { tasks_list = left }, h')) | ok u ↦ rest ]
  ]

  -- What follows the loop, for a number to delete that is not negative.
  unfoldable pub after_loop :
      ℕ → ℕ → Option (List String) → Exec (AppGroup × Hydra W) (Option (List String))
  after_loop current n none s = (ok none, s)
  after_loop current n (some deleted) (g, h) =
      let (r, h') = refresh_app_info b g.app_name h in
      elim r [
        | err e ↦ (err e, (g, h'))
        | ok cnt ↦ (
          ok (if nat_beq (current - n) (length g.tasks_list) then some deleted else none),
          (g, h'),
        )
      ]

  -- `delete_tasks_from_group`. A negative number deletes nothing and fails the check at the end.
  unfoldable pub delete_tasks_from_group : ℤ → Exec (AppGroup × Hydra W) (Option (List String))
  unfolding delete_loop after_loop
  delete_tasks_from_group (pos num) (g, h) =
      let current = length g.tasks_list in
      let n = if ltb current num then current else num in
      let (r, s) = delete_loop n [] (g, h) in
      elim r [ err e ↦ (err e, s) | ok o ↦ after_loop current n o s ]
  delete_tasks_from_group (negsuc num) (g, h) =
      let (r, h') = refresh_app_info b g.app_name h in
      elim r [ err e ↦ (err e, (g, h')) | ok cnt ↦ (ok none, (g, h')) ]

  -- The first loop of `delete_all_launched_apps`: `none` where the fuel ran out.
  unfoldable pub delete_apps : ℕ → ℕ → ℕ → ℕ → List String → Exec (Hydra W) (Option (Unit {0}))
  delete_apps fuel timeout threshold batch [] = pure (some tt)
  delete_apps fuel timeout threshold batch (app ∷ apps) = do
    done ← delete_app b fuel app timeout false threshold batch
    elim done [ none ↦ pure none | some u ↦ delete_apps fuel timeout threshold batch apps ]

  unfoldable pub wait_removals : List String → Exec W (Unit {0})
  wait_removals [] = pure tt
  wait_removals (app ∷ apps) = b.wait_app_removal app >> wait_removals apps

  -- `delete_all_launched_apps`
  unfoldable pub delete_all_launched_apps : ℕ → ℕ → ℕ → ℕ → Exec (Hydra W) (Option (Unit {0}))
  unfolding delete_apps wait_removals
  delete_all_launched_apps fuel timeout threshold batch = do
    apps ← gets (λ h. h.app_id_list)
    done ← delete_apps fuel timeout threshold batch apps
    elim done [ none ↦ pure none | some u ↦ do on_world (wait_removals apps); pure (some tt) ]
