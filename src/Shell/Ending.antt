-- ===== src/Shell/Ending.antt =====
-- What is known when a command of the shell has returned.
use m_scale.Common.{
  ℕ, ◌≡◌, arith, false, Option, some, String, ok, Bool-cases, Option-cases, inl, inr, nat_beq_iff,
}
use m_scale.Shell.{ShellOs, Ended, run, is_late}

module _ {W : Type 0} (os : ShellOs W) where
  -- A command that `run` returns from was not late, and has ended with the status 0; what it returns is
  -- what the thread has kept.
  pub run-succeeded :
      (timeout : ℕ) (exec_cmd : String) (w w' : W) (kept : Option Ended)
      → run os timeout false exec_cmd w ≡ (ok kept, w')
      → (e : Ended) × (kept ≡ some e)
        × (e.status ≡ 0)
        × (os.kept w' ≡ kept)
        × (is_late os (os.join (some timeout) (os.start exec_cmd w)) ≡ false)
  unfolding run
  run-succeeded timeout exec_cmd w w' kept h =
      let w1 = os.join (some timeout) (os.start exec_cmd w) in
      elim (Bool-cases (is_late os w1)) [
        | inl late ↦ absurd (ground (arith, late, h))
        | inr soon ↦ elim (Option-cases (os.kept w1)) [
          | inl lost ↦ absurd (ground (arith, soon, lost, h))
          | inr (e, there) ↦ (
            e,
            ground (arith, soon, there, h),
            ground (arith, soon, there, h, nat_beq_iff e.status 0),
            ground (arith, soon, there, h),
            soon,
          )
        ]
      ]
