-- ===== src/Hydra/Scaling.antt =====
-- The batches in which `HydraBase` scales and deletes an app.
pub mod Cluster
pub mod Sizes
use m_scale.Common.{
  ℕ, zero, suc, ◌+◌, ◌-◌, Bool, Option, none, some, String, List, [], ◌∷◌, Exec, pure, check, ◌>>=◌,
  ◌>>◌, length, string_eq, nat_eq, ◌==◌, ltb, if◌then◌else◌,
}
use m_scale.Dict.{delete, has_key}
use m_scale.Hydra.{Hydra, Backend, on_world, check_app}
use m_scale.Hydra.Apps.{refresh_app_info}

module _ {W : Type 0} (b : Backend W) where
  unfoldable pub count_tasks : String → Exec W ℕ
  count_tasks name = do tasks ← b.get_tasks name; pure (length tasks)

  -- `self.__scale_app(name, n)`, then `self.wait_app_ready(name, n)`
  unfoldable pub scale_to : String → ℕ → Exec W (Unit {0})
  scale_to name n = b.scale name n >> b.wait_ready name n

  -- Up to the last batch, which is checked.
  unfoldable pub scale_last : String → ℕ → ℕ → Exec W (Option (Unit {0}))
  unfolding scale_to count_tasks
  scale_last name n target = do
    scale_to name n
    now ← count_tasks name
    check (now == target)
    pure (some tt)

  -- The `while` loop of `scale_app` after its first batch, on fuel: `none` where that ran out.
  unfoldable pub scale_batches : ℕ → String → ℕ → ℕ → ℕ → ℕ → Exec W (Option (Unit {0}))
  unfolding scale_to count_tasks scale_last
  scale_batches zero name scale_cnt batch launched remaining = pure none
  scale_batches (suc fuel) name scale_cnt batch launched remaining = do
    now ← count_tasks name
    if now == scale_cnt
        then pure (some tt)
        else if ltb remaining batch
        then scale_last name (launched + remaining) scale_cnt
        else scale_to name (launched + batch)
          >> scale_batches fuel name scale_cnt batch (launched + batch) (remaining - batch)

  -- The whole loop: its first round launches as many as the threshold.
  unfoldable pub scale_rounds : ℕ → String → ℕ → ℕ → ℕ → Exec W (Option (Unit {0}))
  unfolding scale_batches scale_to count_tasks
  scale_rounds fuel name scale_cnt batch threshold = do
    now ← count_tasks name
    if now == scale_cnt
        then pure (some tt)
        else scale_to name threshold
          >> scale_batches fuel name scale_cnt batch threshold (scale_cnt - threshold)

  unfoldable pub scale_at_once : String → ℕ → Exec W (Option (Unit {0}))
  unfolding scale_to
  scale_at_once name n = scale_to name n >> pure (some tt)

  -- What follows the loop.
  unfoldable pub scaled : String → ℕ → Option (Unit {0}) → Exec (Hydra W) (Option (Unit {0}))
  scaled name scale_cnt none = pure none
  scaled name scale_cnt (some u) = do
    inst_cnt ← refresh_app_info b name
    check (inst_cnt == scale_cnt)
    pure (some tt)

  -- At once, or in batches where more than the threshold are asked for.
  unfoldable pub launch : ℕ → String → ℕ → ℕ → ℕ → Exec W (Option (Unit {0}))
  unfolding scale_rounds scale_at_once
  launch fuel name scale_cnt batch threshold =
      if ltb threshold scale_cnt
      then scale_rounds fuel name scale_cnt batch threshold
      else scale_at_once name scale_cnt

  -- `scale_app`
  unfoldable pub scale_app : ℕ → String → ℕ → ℕ → ℕ → Exec (Hydra W) (Option (Unit {0}))
  unfolding scaled launch
  scale_app fuel name scale_cnt batch threshold = do
    check_app name
    done ← on_world (launch fuel name scale_cnt batch threshold)
    scaled name scale_cnt done

  -- The `while` loop of `delete_app`, on fuel.
  unfoldable pub delete_batches : ℕ → String → ℕ → ℕ → Exec W (Option (Unit {0}))
  unfolding scale_to count_tasks scale_last
  delete_batches zero app batch remaining = pure none
  delete_batches (suc fuel) app batch remaining = do
    now ← count_tasks app
    if now == 1
        then pure (some tt)
        else if ltb remaining batch
        then scale_last app 1 1
        else scale_to app (remaining - batch) >> delete_batches fuel app batch (remaining - batch)

  unfoldable pub delete_deployments : List String → Exec W (Unit {0})
  delete_deployments [] = pure tt
  delete_deployments (d ∷ ds) = b.delete_deployment d >> delete_deployments ds

  unfoldable pub remove_app :
      String → ℕ → Bool → List String → Option (Unit {0}) → Exec W (Option (Unit {0}))
  unfolding delete_deployments
  remove_app app timeout wait deployments none = pure none
  remove_app app timeout wait deployments (some u) = do
    delete_deployments deployments
    b.delete_app_ifexisting app timeout
    if wait then b.wait_app_removal app else pure tt
    pure (some tt)

  unfoldable pub shrink : ℕ → String → ℕ → ℕ → ℕ → Exec W (Option (Unit {0}))
  unfolding delete_batches
  shrink fuel app threshold batch running =
      if ltb threshold running then delete_batches fuel app batch running else pure (some tt)

  unfoldable pub delete_running :
      ℕ → String → ℕ → Bool → ℕ → ℕ → Option (ℕ × List String) → Exec W (Option (Unit {0}))
  unfolding shrink remove_app
  delete_running fuel app timeout wait threshold batch none =
      remove_app app timeout wait [] (some tt)
  delete_running fuel app timeout wait threshold batch (some (running, deployments)) = do
    done ← shrink fuel app threshold batch running
    remove_app app timeout wait deployments done

  -- `delete_app`
  unfoldable pub delete_app : ℕ → String → ℕ → Bool → ℕ → ℕ → Exec (Hydra W) (Option (Unit {0}))
  unfolding delete_running
  delete_app fuel app timeout wait threshold batch h =
      let forgotten = record h {
        apps = if has_key h.apps app then delete h.apps app else h.apps;
      } in
      on_world (do a ← b.get_running app; delete_running fuel app timeout wait threshold batch a)
        forgotten
