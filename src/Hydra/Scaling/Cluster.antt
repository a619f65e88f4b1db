-- ===== src/Hydra/Scaling/Cluster.antt =====
-- The batches on a cluster that starts and stops at most `limit` tasks of an app at a time.
use m_scale.Common.{
  ℕ, zero, suc, ◌+◌, ◌-◌, ◌≤◌, ◌<◌, ◌≡◌, refl, ok, some, arith, nat_eq, ◌==◌, ltb, Bool-cases, inl,
  inr, String,
}
use m_scale.Hydra.{Backend}
use m_scale.Hydra.Scaling.{count_tasks, scale_to, scale_last, scale_batches, delete_batches}

module _ {W : Type 0} (b : Backend W) (app : String) (limit : ℕ) (count : W → ℕ)
    (counts : (w : W) → count_tasks b app w ≡ (ok (count w), w))
    (scales : (n : ℕ) (w : W)
      → n ≤ count w + limit
      → count w ≤ n + limit
      → (w' : W) × (scale_to b app n w ≡ (ok tt, w')) × (count w' ≡ n)) where
  scale_last_lem :
      (n target : ℕ) (w : W)
      → n ≡ target
      → n ≤ count w + limit
      → count w ≤ n + limit
      → (w' : W) × (scale_last b app n target w ≡ (ok (some tt), w')) × (count w' ≡ target)
  unfolding scale_last
  scale_last_lem n target w e up down =
      let (w', s, c) = scales n w up down in (w', ground (arith, s, counts w'), ground arith)

  pub scale_batches_lem :
      (fuel cnt batch launched remaining : ℕ) (w : W)
      → 0 < batch
      → batch ≤ limit
      → count w ≡ launched
      → launched + remaining ≡ cnt
      → remaining < fuel
      → (w' : W) × (scale_batches b fuel app cnt batch launched remaining w ≡ (ok (some tt), w'))
        × (count w' ≡ cnt)
  unfolding scale_batches
  scale_batches_lem zero cnt batch launched remaining w pos_batch l e total more =
      absurd (omega arith)
  scale_batches_lem (suc fuel) cnt batch launched remaining w pos_batch l e total more =
      elim (Bool-cases (count w == cnt)) [
        | inl there ↦ (w, ground (arith, counts w), ground arith)
        | inr short ↦ elim (Bool-cases (ltb remaining batch)) [
          | inl few ↦
              let (w', s, c) =
                scale_last_lem (launched + remaining) cnt w total (ground arith) (ground arith) in
              (w', ground (arith, counts w), c)
          | inr many ↦
              let (w1, s, c) = scales (launched + batch) w (ground arith) (ground arith) in
              let (w', r, d) =
                scale_batches_lem fuel cnt batch (launched + batch) (remaining - batch) w1 pos_batch
                  l c (ground arith) (ground arith) in
              (w', ground (arith, counts w), d)
        ]
      ]

  pub delete_batches_lem :
      (fuel batch remaining : ℕ) (w : W)
      → 0 < batch
      → batch ≤ limit
      → count w ≡ remaining
      → suc remaining < fuel
      → (w' : W) × (delete_batches b fuel app batch remaining w ≡ (ok (some tt), w'))
        × (count w' ≡ 1)
  unfolding delete_batches
  delete_batches_lem zero batch remaining w pos_batch l e more = absurd (omega arith)
  delete_batches_lem (suc fuel) batch remaining w pos_batch l e more =
      elim (Bool-cases (count w == 1)) [
        | inl there ↦ (w, ground (arith, counts w), ground arith)
        | inr short ↦ elim (Bool-cases (ltb remaining batch)) [
          | inl few ↦
              let (w', s, c) = scale_last_lem 1 1 w refl (ground arith) (ground arith) in
              (w', ground (arith, counts w), c)
          | inr many ↦
              let (w1, s, c) = scales (remaining - batch) w (ground arith) (ground arith) in
              let (w', r, d) =
                delete_batches_lem fuel batch (remaining - batch) w1 pos_batch l c (ground arith) in
              (w', ground (arith, counts w), d)
        ]
      ]
