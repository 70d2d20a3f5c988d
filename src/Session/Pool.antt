-- ===== src/Session/Pool.antt =====
-- `SessionPool` of src/xrd/session/pool.py. The clock is read by the caller of an operation, once
-- for each `time.monotonic()` of the code.
pub mod Every
pub mod Bounds
pub mod Accounts
pub mod History
use py_xroot_dclient.Base.{
  [], Bool, ℕ, Option, List, leb, ◌∷◌, if◌then◌else◌, none, ltb, ◌||◌, length, ◌==◌, some, ◌+◌,
  false, not,
}
use py_xroot_dclient.Session.World.{
  Key, Bucket, World, bucket_of, put_bucket, pop_bucket, is_closed, close_all, sessions,
  all_sessions,
}
use py_xroot_dclient.Config.{Config}
use py_xroot_dclient.Base.Int.{pos_part}

-- `config.pool_size <= 0`
abbrev pub pooling_off : Config → Bool
pooling_off c = pos_part c.pool_size == 0

-- `when < time.monotonic() - ttl`
abbrev pub is_stale : ℕ → ℕ → ℕ → Bool
is_stale ttl now at = ltb (at + ttl) now

-- What the loop of `acquire` leaves: the session it found, the stale ones, the rest of the bucket.
pub record Popped : Type 0 where
  pub found : Option ℕ
  pub stale : List ℕ
  pub rest : Bucket

abbrev pub stale_too : ℕ → Popped → Popped
stale_too s p = record p { stale = s ∷ p.stale }

-- `while bucket: when, session = bucket.pop() ...`
unfoldable pub pop_live : ℕ → ℕ → World → Bucket → Popped
pop_live ttl now w [] = record { found = none; stale = []; rest = [] }
pop_live ttl now w ((at, s) ∷ b) =
    let later = pop_live ttl now w b in
    if is_closed w s
    then later
    else if is_stale ttl now at
    then stale_too s later
    else record { found = some s; stale = []; rest = b }

-- The bucket is the object in the dictionary, which so has the rest, and no key when that is empty.
-- A key without a bucket is not put in.
unfoldable pub store_rest : World → Key → Bucket → World
store_rest w k [] = record w { idle = pop_bucket w.idle k }
store_rest w k (e ∷ b) = record w { idle = put_bucket w.idle k (e ∷ b) }

-- `SessionPool.acquire`, at the key of the URL and the configuration.
unfoldable pub acquire : Config → ℕ → Key → World → Option ℕ × World
acquire c now k w =
    let p = pop_live c.pool_idle_ttl now w (bucket_of w.idle k) in
    if pooling_off c then (none, w) else (p.found, close_all p.stale (store_rest w k p.rest))

-- `[entry for entry in bucket if entry[0] < cutoff]`, and `>=`.
unfoldable pub expired : ℕ → ℕ → Bucket → Bucket
expired ttl now [] = []
expired ttl now ((at, s) ∷ b) =
    let later = expired ttl now b in if is_stale ttl now at then (at, s) ∷ later else later

unfoldable pub current : ℕ → ℕ → Bucket → Bucket
current ttl now [] = []
current ttl now ((at, s) ∷ b) =
    let later = current ttl now b in if is_stale ttl now at then later else (at, s) ∷ later

-- `len(bucket) >= config.pool_size`
abbrev pub is_full : Config → Bucket → Bool
is_full c b = leb (pos_part c.pool_size) (length b)

-- `bucket.append` unless it is full.
unfoldable pub add_entry : Config → ℕ → ℕ → Bucket → Bucket
add_entry c then_now s b = if is_full c b then b else (then_now, s) ∷ b

-- `SessionPool.release`. The clock is read a second time for the new entry.
unfoldable pub release : Config → ℕ → ℕ → Key → ℕ → World → Bool × World
release c now then_now k s w =
    let bucket = bucket_of w.idle k in
    let live = current c.pool_idle_ttl now bucket in
    let dead = expired c.pool_idle_ttl now bucket in
    if pooling_off c || is_closed w s then (false, w) else (
      not (is_full c live),
      close_all (sessions dead)
          (record w { idle = put_bucket w.idle k (add_entry c then_now s live) }),
    )

-- `SessionPool.forget`
unfoldable pub forget : World → World
forget w = record w { idle = [] }

-- `SessionPool.clear`
unfoldable pub clear : World → World
clear w = close_all (all_sessions w.idle) (record w { idle = [] })

-- `SessionPool.__len__`
unfoldable pub pool_length : World → ℕ
pool_length w = sum_buckets w.idle
  where
    sum_buckets : List (Key × Bucket) → ℕ
    sum_buckets [] = 0
    sum_buckets ((k, b) ∷ d) = length b + sum_buckets d
