-- ===== src/Hydra/Readings/Settling.antt =====
-- One task that `fetch_app_stats` reads until its count of messages stands still.
use m_scale.Common.{
  ℕ, zero, suc, ◌+◌, ◌-◌, ◌≤◌, ◌<◌, ◌≡◌, arith, Bool, true, false, some, String, ok, nat_eq, ◌==◌,
  if◌then◌else◌, Bool-cases, inl, inr,
}
use m_scale.Hydra.{Endpoint, Stats, Backend}
use m_scale.Hydra.Readings.{settle, read_stats}

module _ {W : Type 0} (b : Backend W) where
  -- A task is read some times, one reading after the other.
  pub data Reads (e : Endpoint) (t : String) : W → W → Type 0 where
    no_more : (w : W) → Reads e t w w
    read : (s : Stats) (w u v : W) → b.get_stats e t w ≡ (ok s, u) → Reads e t u v → Reads e t w v

  -- The last two readings of a task have the same count of messages, and the first of these is `s`.
  pub record Settled (e : Endpoint) (t : String) (w : W) (s : Stats) (v : W) : Type 0 where
    pub before_last : W
    pub between : W
    pub last : Stats
    pub reads : Reads e t w before_last
    pub reads_it : b.get_stats e t before_last ≡ (ok s, between)
    pub reads_again : b.get_stats e t between ≡ (ok last, v)
    pub same_count : s.msg_cnt ≡ last.msg_cnt

  -- Every task answers, with a count that does not go down from one reading to the next and is at most
  -- `most`.
  pub record IsCounting (most : ℕ) : Type 0 where
    pub answers :
        (e : Endpoint) (t : String) (w : W)
        → (s : Stats) × (u : W) × (b.get_stats e t w ≡ (ok s, u)) × (s.msg_cnt ≤ most)
    pub rises :
        (e : Endpoint) (t : String) (w u v : W) (s s' : Stats)
        → b.get_stats e t w ≡ (ok s, u)
        → b.get_stats e t u ≡ (ok s', v)
        → s.msg_cnt ≤ s'.msg_cnt

  Settled-later :
      (e : Endpoint) (t : String) (w u v : W) (s s' : Stats)
      → b.get_stats e t w ≡ (ok s, u)
      → Settled e t u s' v
      → Settled e t w s' v
  Settled-later e t w u v s s' q k = record {
    before_last = k.before_last;
    between = k.between;
    last = k.last;
    reads = read s w u k.before_last q k.reads;
    reads_it = k.reads_it;
    reads_again = k.reads_again;
    same_count = k.same_count;
  }

  module _ (most : ℕ) (k : IsCounting most) where
    settle_lem :
        (fuel : ℕ) (e : Endpoint) (t : String) (s : Stats) (first : Bool) (w u : W)
        → b.get_stats e t w ≡ (ok s, u)
        → most - s.msg_cnt < fuel
        → (s' : Stats) × (still : Bool) × (v : W) × (settle b fuel e t s first u
            ≡ (ok (some (s', still)), v))
          × Settled e t w s' v
    unfolding settle
    settle_lem zero e t s first w u q l = absurd (omega (arith, l))
    settle_lem (suc fuel) e t s first w u q l =
        let (s2, v, q2, low) = k.answers e t u in
        elim (Bool-cases (s.msg_cnt == s2.msg_cnt)) [
          | inl same ↦ (
            s,
            first,
            v,
            ground (arith, q2, same),
            record {
              before_last = w;
              between = u;
              last = s2;
              reads = no_more w;
              reads_it = q;
              reads_again = q2;
              same_count = ground (arith, same);
            },
          )
          | inr differ ↦
              let up = k.rises e t w u v s s2 q q2 in
              let (s', still, x, run, settled) =
                settle_lem fuel e t s2 false u v q2 (ground (arith, up, low, differ, l)) in
              (
                s',
                still,
                x,
                ground (arith, q2, differ, run),
                Settled-later e t w u x s s' q settled,
              )
        ]

    pub read_stats_lem :
        (fuel : ℕ) (e : Endpoint) (t : String) (stable : ℕ) (w : W)
        → most < fuel
        → stable ≤ 40
        → (s : Stats) × (n : ℕ) × (v : W) × (read_stats b fuel e t stable w ≡ (ok (some (s, n)), v))
          × (n ≤ stable + 1)
          × Settled e t w s v
    unfolding read_stats
    read_stats_lem fuel e t stable w enough l =
        let (s, u, q, low) = k.answers e t w in
        let (s', still, v, run, settled) =
          settle_lem fuel e t s true w u q (omega (arith, enough)) in
        (s', (if still then stable + 1 else 1), v, ground (arith, q, run, l), ground arith, settled)
