-- ===== src/Session/Pool/Bounds.antt =====
-- How many connections src/xrd/session/pool.py keeps.
use py_xroot_dclient.Session.Pool.History.{
  after, perform, PoolCall, call_acquire, call_release, call_forget, call_clear, call_close,
}
use py_xroot_dclient.Session.Identity.{Value, key_of}
use py_xroot_dclient.Base.Int.{pos_part}
use py_xroot_dclient.Config.{Config}
use py_xroot_dclient.Base.{◌∷◌, length, ℕ, ◌≤◌, [], arith, List, Bytes}
use py_xroot_dclient.Session.World.{Key, Bucket, World, close_session}
use py_xroot_dclient.Session.Pool.{acquire, release, forget, clear}
use py_xroot_dclient.Session.Pool.Every.{
  Every, Part, part_nil, part_keep, part_skip, acquire-Every, release-Every, close_all-idle,
}

-- At most `n` sessions are idle for each key.
abbrev pub AtMost : ℕ → World → Type 0
AtMost n w = Every (λ (k : Key) (b : Bucket). length b ≤ n) w.idle

Part-length : {c b : Bucket} → Part c b → length c ≤ length b
Part-length part_nil = omega arith
Part-length (part_keep e p) = omega (arith, Part-length p)
Part-length (part_skip e p) = omega (arith, Part-length p)

module _ (n : ℕ) where
  abbrev Fits : Key → Bucket → Type 0
  Fits k b = length b ≤ n

  Fits-nil : (k : Key) → Fits k []
  Fits-nil k = omega arith

  Fits-Part : (k : Key) (c b : Bucket) → Part c b → Fits k b → Fits k c
  Fits-Part k c b p h = omega (arith, Part-length p)

  pub acquire-AtMost :
      (c : Config) (now : ℕ) (k : Key) (w : World) → AtMost n w → AtMost n (acquire c now k w).1
  acquire-AtMost c now k w h = acquire-Every Fits Fits-nil Fits-Part c now k w h

  pub release-AtMost :
      (c : Config) (now then_now : ℕ) (k : Key) (s : ℕ) (w : World)
      → pos_part c.pool_size ≤ n
      → AtMost n w
      → AtMost n (release c now then_now k s w).1
  release-AtMost c now then_now k s w z h =
      release-Every Fits Fits-nil Fits-Part c now then_now k s w (λ b off room f. ground arith) h

  -- Every connection was given back under a pool size of at most `n`.
  abbrev pub IsWithin : List PoolCall → Type 0
  IsWithin [] = Unit
  IsWithin (call_release u c now then_now s ∷ calls) = (pos_part c.pool_size ≤ n) × IsWithin calls
  IsWithin (_ ∷ calls) = IsWithin calls

  -- Whatever the pool is used for, at most `n` sessions are idle for each key, if no session was
  -- given back under a configuration with a pool size above `n`.
  pub after-AtMost :
      (repr : Value → Bytes) (sha256 : Bytes → Bytes) (calls : List PoolCall)
      → IsWithin calls
      → AtMost n (after repr sha256 calls)
  unfolding after perform forget clear close_session
  after-AtMost repr sha256 [] h = tt
  after-AtMost repr sha256 (call_acquire u c now ∷ calls) h =
      acquire-AtMost c now (key_of repr sha256 u c) _ (after-AtMost repr sha256 calls h)
  after-AtMost repr sha256 (call_release u c now then_now s ∷ calls) h =
      release-AtMost c now then_now (key_of repr sha256 u c) s _ h.0
        (after-AtMost repr sha256 calls h.1)
  after-AtMost repr sha256 (call_forget ∷ calls) h = tt
  after-AtMost repr sha256 (call_clear ∷ calls) h = rw close_all-idle tt
  after-AtMost repr sha256 (call_close s ∷ calls) h = after-AtMost repr sha256 calls h
