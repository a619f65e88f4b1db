-- ===== src/Daemon/Threads.antt =====
-- src/main/python/hydra/lib/utility/h_threading.py: a thread that hands on its exceptions, and the list
-- of the threads that were started. A thread is a number; the threads themselves are an `Os`.
pub mod Joining
use m_scale.Common.{
  ℕ, Bool, true, false, Option, String, List, [], ◌∷◌, ◌++◌, Exec, Error, ok, err, nat_eq,
  erase_all, if◌then◌else◌,
}
use m_scale.Dict.{Dict, insert}

-- `threading`: to start a function by its name, as a daemon or not; to wait for a thread, with or without
-- a time; whether it is alive.
pub record Os (W : Type 0) : Type 0 where
  pub start : String → Bool → W → ℕ × W
  pub join : ℕ → Option ℕ → W → W
  pub is_alive : ℕ → W → Bool

-- `HThread._wrapper`: what the function raises goes to `thread_exceptions`, and these to the callback.
unfoldable pub wrapper :
    {S : Type 0} → (List Error → S → S) → Exec S (Unit {0}) → List Error × S → List Error × S
wrapper callback_fn fn (thread_exceptions, s) =
    let (r, s') = fn s in
    elim r [
      | ok u ↦ (thread_exceptions, s')
      | err e ↦ (thread_exceptions ++ e ∷ [], callback_fn (thread_exceptions ++ e ∷ []) s')
    ]

-- `HThreading`
pub record Threading : Type 0 where
  pub running_threads : List ℕ
  pub thread_id_fn : Dict ℕ String

module _ {W : Type 0} (os : Os W) where
  unfoldable pub start_thread : String → Bool → Threading × W → ℕ × (Threading × W)
  start_thread fn daemon (h, w) =
      let (t, w') = os.start fn daemon w in
      (
        t,
        (
          record {
            running_threads = h.running_threads ++ t ∷ [];
            thread_id_fn = insert h.thread_id_fn t fn;
          },
          w',
        ),
      )

  -- The first loop of `join_all`: waits for each thread, and gives those that are dead then.
  unfoldable pub join_each : Option ℕ → List ℕ → W → List ℕ × W
  join_each timeout [] w = ([], w)
  join_each timeout (t ∷ ts) w =
      let w1 = os.join t timeout w in
      let (dead, w2) = join_each timeout ts w1 in
      ((if os.is_alive t w1 then dead else t ∷ dead), w2)

  unfoldable pub join_all : Option ℕ → Threading × W → Threading × W
  unfolding join_each
  join_all timeout (h, w) =
      let (dead, w') = join_each timeout h.running_threads w in
      (record h { running_threads = erase_all h.running_threads dead }, w')
