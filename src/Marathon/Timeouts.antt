-- ===== src/Marathon/Timeouts.antt =====
-- The calls that are tried again come to an end, one way or the other.
use m_scale.Common.{
  ℕ, zero, suc, ◌+◌, ◌*◌, ◌-◌, ◌≤◌, ◌≡◌, ◌⊎◌, arith, Option, some, String, ok, err, Exec, Result,
  Error, ◌<◌, ◌∙◌, refl, inl, inr, Bool-cases, ltb,
}
use m_scale.Marathon.{Client, timed_out, try_until, scale_app}

module _ {W : Type 0} (mcli : Client W)
    (sleeps : (d : ℕ) (w : W) → mcli.time w + d ≤ mcli.time (mcli.sleep d w)) where
  -- From the one state to the other by calls that raised, each with a sleep of ten seconds after it.
  pub data Retried {A : Type 0} (call : Exec W A) : W → W → Type 0 where
    at_once : (w : W) → Retried call w w
    after_error :
        (e : Error) (w u v : W)
        → call w ≡ (err e, u)
        → Retried call (mcli.sleep 10000 u) v
        → Retried call w v

  -- After some calls that raised, a call returned a value, and that is the result; or the exception
  -- of the timeout, without another call, once that much time has passed.
  abbrev pub Settles : {A : Type 0} → Exec W A → ℕ → W → Result (Option A) × W → Type 0
  Settles {A} call deadline w p =
      ((a : A) × (v : W) × (u : W) × Retried call w v
        × (mcli.time v < deadline)
        × (call v ≡ (ok a, u))
        × (p ≡ (ok (some a), u)))
      ⊎ ((v : W) × Retried call w v × (deadline ≤ mcli.time v) × (p ≡ (err timed_out, v)))

  Settles-later :
      {A : Type 0} (call : Exec W A) (deadline : ℕ) (w u : W) (e : Error)
      (p q : Result (Option A) × W)
      → call w ≡ (err e, u)
      → q ≡ p
      → Settles call deadline (mcli.sleep 10000 u) p
      → Settles call deadline w q
  Settles-later call deadline w u e p q raises same (inl (a, v, x, r, early, c, d)) =
      inl (a, v, x, after_error e w u v raises r, early, c, same ∙ d)
  Settles-later call deadline w u e p q raises same (inr (v, r, late, d)) =
      inr (v, after_error e w u v raises r, late, same ∙ d)

  outcome_of :
      {A : Type 0} (p : Result A × W)
      → ((a : A) × (p ≡ (ok a, p.1))) ⊎ ((e : Error) × (p ≡ (err e, p.1)))
  outcome_of (ok a, u) = inl (a, refl)
  outcome_of (err e, u) = inr (e, refl)

  try_until-Settles :
      {A : Type 0} (call : Exec W A)
      → ((w : W) → mcli.time w ≤ mcli.time (call w).1)
      → (fuel st_time timeout : ℕ) (w : W) → st_time ≤ mcli.time w
      → timeout ≤ mcli.time w - st_time + fuel * 10000
      → Settles call (st_time + timeout) w (try_until mcli (suc fuel) call st_time timeout w)
  unfolding try_until
  try_until-Settles call onward zero st_time timeout w s l =
      inr (w, at_once w, omega (arith, s, l), ground (arith, l))
  try_until-Settles call onward (suc fuel) st_time timeout w s l =
      elim (Bool-cases (ltb (mcli.time w - st_time) timeout)) [
        | inr late ↦ inr (w, at_once w, ground (arith, late), ground (arith, late))
        | inl early ↦ elim (outcome_of (call w)) [
          | inl (a, returns) ↦ inl (
            a,
            w,
            (call w).1,
            at_once w,
            ground (arith, early),
            returns,
            ground (arith, early, returns),
          )
          | inr (e, raises) ↦
              let later = mcli.sleep 10000 (call w).1 in
              Settles-later call (st_time + timeout) w (call w).1 e
                (try_until mcli (suc fuel) call st_time timeout later) _ raises
                (ground (arith, early, raises))
                (try_until-Settles call onward fuel st_time timeout later
                  (omega (arith, s, onward w, sleeps 10000 (call w).1))
                  (omega (arith, l, s, onward w, sleeps 10000 (call w).1)))
        ]
      ]

  -- `scale_app` of the marathon interface ends, where the clock goes on as long as a sleep lasts
  -- and never goes back in a call: it calls marathon, again ten seconds after each call that raises,
  -- and returns with the first call that does not, which began before the timeout; or it raises the
  -- timeout after calls that all raised, and then at least that much time has passed. A round of the
  -- loop takes ten seconds, so one for each ten seconds of the timeout is enough fuel.
  pub scale_app-Settles :
      (app : String) (scale : ℕ)
      → ((w : W) → mcli.time w ≤ mcli.time (mcli.scale_app app scale w).1)
      → (fuel timeout : ℕ) (w : W) → timeout ≤ fuel * 10000
      → Settles
          (mcli.scale_app app scale)
          (mcli.time w + timeout)
          w
          (scale_app mcli (suc fuel) app scale timeout w)
  unfolding scale_app
  scale_app-Settles app scale onward fuel timeout w l =
      try_until-Settles (mcli.scale_app app scale) onward fuel (mcli.time w) timeout w (omega arith)
        (omega arith)
