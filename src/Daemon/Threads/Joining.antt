-- ===== src/Daemon/Threads/Joining.antt =====
-- Which threads `join_all` leaves in the list.
use m_scale.Common.{
  ℕ, ◌≡◌, refl, arith, true, false, Option, List, [], ◌∷◌, nat_eq, contains, contains-erase_all,
  IsDistinct, nat_beq_iff,
}
use m_scale.Daemon.Threads.{Os, Threading, join_each, join_all}

module _ {W : Type 0} (os : Os W)
    (stays : (t u : ℕ) (timeout : Option ℕ) (w : W)
      → os.is_alive t w ≡ false
      → os.is_alive t (os.join u timeout w) ≡ false) where
  join_each-stays :
      (timeout : Option ℕ) (ts : List ℕ) (t : ℕ) (w : W)
      → os.is_alive t w ≡ false
      → os.is_alive t (join_each os timeout ts w).1 ≡ false
  unfolding join_each
  join_each-stays timeout [] t w d = d
  join_each-stays timeout (u ∷ ts) t w d =
      join_each-stays timeout ts t (os.join u timeout w) (stays t u timeout w d)

  join_each-dead :
      (timeout : Option ℕ) (ts : List ℕ) (t : ℕ) (w : W)
      → contains (join_each os timeout ts w).0 t ≡ true
      → os.is_alive t (join_each os timeout ts w).1 ≡ false
  unfolding join_each
  join_each-dead timeout [] t w h = absurd (ground (arith, h))
  join_each-dead timeout (u ∷ ts) t w h = ground (
    arith,
    nat_beq_iff u t,
    join_each-stays timeout ts t (os.join u timeout w),
    join_each-dead timeout ts t (os.join u timeout w),
  )

  join_each-found :
      (timeout : Option ℕ) (ts : List ℕ) (t : ℕ) (w : W)
      → os.is_alive t w ≡ false
      → contains (join_each os timeout ts w).0 t ≡ contains ts t
  unfolding join_each
  join_each-found timeout [] t w d = refl
  join_each-found timeout (u ∷ ts) t w d = ground (
    arith,
    nat_beq_iff u t,
    stays t u timeout w d,
    join_each-found timeout ts t (os.join u timeout w) (stays t u timeout w d),
  )

  -- Where a dead thread stays dead while others are waited for, and no thread is in the list twice:
  -- `join_all` keeps no thread that was dead before, it drops none that is alive after it, and it adds
  -- none.
  pub join_all-keeps :
      (timeout : Option ℕ) (h : Threading) (w : W) (t : ℕ)
      → IsDistinct h.running_threads
      → (os.is_alive t w ≡ false
          → contains (join_all os timeout (h, w)).0.running_threads t ≡ false)
        × (contains h.running_threads t ≡ true
            → os.is_alive t (join_all os timeout (h, w)).1 ≡ true
            → contains (join_all os timeout (h, w)).0.running_threads t ≡ true)
        × (contains h.running_threads t ≡ false
            → contains (join_all os timeout (h, w)).0.running_threads t ≡ false)
  unfolding join_all
  join_all-keeps timeout h w t d =
      let (dead, w') = join_each os timeout h.running_threads w in
      let kept = contains-erase_all h.running_threads dead t d in
      (
        λ gone. ground (arith, kept, join_each-found timeout h.running_threads t w gone),
        λ there alive.
            ground (arith, kept, there, alive, join_each-dead timeout h.running_threads t w),
        λ missing. ground (arith, kept, missing),
      )
