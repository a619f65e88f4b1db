-- ===== src/Workers/Ending.antt =====
-- How the wait of `run10` ends.
use m_scale.Common.{
  ℕ, zero, suc, ◌≡◌, ◌≢◌, ◌⊎◌, inl, inr, arith, false, none, some, String, List, Exec, ok, err,
  Bool-cases, Result-cases, system_exit, Option-cases, refl,
}
use m_scale.Mock.Children.{Processes, Manager, wait, sigchild}
use m_scale.Workers.{run10_inst, launch_workers, kafka_run10, sub_cmd}

module _ {W : Type 0} (p : Processes W) where
  -- A wait that starts with no child ended goes on, or exits at the signal of a child.
  wait-Ends :
      (fuel : ℕ) (c : Manager) (w : W)
      → c.taskdone ≡ false
      → ((wait p fuel (c, w)).0 ≡ ok none) ⊎ ((wait p fuel (c, w)).0 ≡ err system_exit)
  unfolding wait sigchild
  wait-Ends zero c w d = inl (ground arith)
  wait-Ends (suc fuel) c w d = elim (Bool-cases (p.is_child_ended (p.sleep w))) [
    | inl ended ↦ inr (ground (arith, d, ended))
    | inr lives ↦ elim (wait-Ends fuel c (p.sleep w) d) [
      | inl r ↦ inl (ground (arith, d, lives, r))
      | inr r ↦ inr (ground (arith, d, lives, r))
    ]
  ]

  run10_inst-endless :
      (fuel : ℕ) (cmd : List String) (w : W) (u : Unit {0})
      → (run10_inst p fuel cmd w).0 ≢ ok (some u)
  unfolding run10_inst
  run10_inst-endless fuel cmd w u h = elim (Result-cases (launch_workers p cmd w).0) [
    | inr (e, r) ↦ absurd (ground (arith, r, h))
    | inl (jobs, r) ↦
        let c : Manager = record { taskdone = false; jobs = jobs } in
        absurd (ground (arith, r, h, wait-Ends fuel c (launch_workers p cmd w).1 refl))
  ]

  -- `run10` of kafka_sub.py never comes to the call after its wait, which deletes a topic: with any
  -- command there it does the same. The signal of a child that ends exits the process from the wait.
  pub kafka_run10-uncalled :
      (call other : Exec W (Unit {0})) (fuel : ℕ) (argv : List String) (w : W)
      → kafka_run10 p call fuel argv w ≡ kafka_run10 p other fuel argv w
  unfolding kafka_run10
  kafka_run10-uncalled call other fuel argv w =
      let cmd = sub_cmd p "hydra.kafkatest.kafka_sub.run" argv in
      elim (Result-cases (run10_inst p fuel cmd w).0) [
        | inr (e, r) ↦ ground (arith, r)
        | inl (o, r) ↦ elim (Option-cases o) [
          | inl out ↦ ground (arith, r, out)
          | inr (u, there) ↦ absurd (run10_inst-endless fuel cmd w u (ground (arith, r, there)))
        ]
      ]
