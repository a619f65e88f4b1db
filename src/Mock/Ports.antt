-- ===== src/Mock/Ports.antt =====
-- The ports of the mock.
use m_scale.Common.{
  ℕ, zero, suc, ◌+◌, ◌≤◌, ◌<◌, ◌≡◌, arith, some, String, List, [], ◌∷◌, err, index_error, length,
  get_elem?, Option-cases, inl, inr,
}
use m_scale.Hydra.{AppRequest}
use m_scale.Mock.Children.{Processes}
use m_scale.Mock.{Mock, take_ports, create_app}

below_length : (xs : List String) (i : ℕ) (x : String) → get_elem? xs i ≡ some x → i < length xs
below_length [] i x e = absurd (cc)
below_length (y ∷ xs) zero x e = ground (arith, e)
below_length (y ∷ xs) (suc i) x e = omega (arith, below_length xs i x e)

module _ {W : Type 0} (p : Processes W) where
  take_ports-beyond :
      (k : ℕ) (m : Mock W)
      → m.port_index ≤ length m.env_ports
      → length m.env_ports < m.port_index + k
      → ((take_ports p k m).0 ≡ err index_error) × ((take_ports p k m).1.list_apps ≡ m.list_apps)
  unfolding take_ports
  take_ports-beyond zero m b l = absurd (omega (arith, l, b))
  take_ports-beyond (suc k) m b l = elim (Option-cases (get_elem? m.env_ports m.port_index)) [
    | inl e ↦ ground (arith, e)
    | inr (port, e) ↦ ground (
      arith,
      e,
      take_ports-beyond k (record m { port_index = m.port_index + 1 })
          (omega (arith, below_length m.env_ports m.port_index port e)) (omega (arith, l)),
    )
  ]

  -- The mock hands out each of its ports once, and takes none back: once an app asks for more ports
  -- than are left, `create_app` raises an IndexError, and the apps are as they were, whatever apps
  -- were deleted before.
  pub create_app-exhausted :
      (app_id : String) (attr : AppRequest) (name : String) (m : Mock W)
      → m.port_index ≤ length m.env_ports
      → length m.env_ports < m.port_index + attr.ports
      → ((create_app p app_id attr name m).0 ≡ err index_error)
        × ((create_app p app_id attr name m).1.list_apps ≡ m.list_apps)
  unfolding create_app
  create_app-exhausted app_id attr name m b l = ground (arith, take_ports-beyond attr.ports m b l)
