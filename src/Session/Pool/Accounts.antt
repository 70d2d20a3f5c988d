-- ===== src/Session/Pool/Accounts.antt =====
-- Every connection is accounted for: src/xrd/session/pool.py hands out or closes what it lets go.
use py_xroot_dclient.Base.Cases.{on_bool, on_test}
use py_xroot_dclient.Config.{Config}
use py_xroot_dclient.Crypto.Sigver.{elem}
use py_xroot_dclient.Base.{
  ℕ, count, Option, ◌+◌, some, ◌∷◌, ◌≡◌, arith, [], count-append, none, false, Bool-cases, refl,
  List, inl, inr, ap, Bool, if◌then◌else◌, not, ◌||◌,
}
use py_xroot_dclient.Session.World.{
  Key, Bucket, Idle, World, bucket_of, put_bucket, pop_bucket, close_session, close_all, sessions,
  all_sessions, is_closed, key_eq,
}
use py_xroot_dclient.Session.Pool.{
  acquire, release, clear, pop_live, store_rest, current, expired, Popped, add_entry, is_stale,
  pooling_off, is_full,
}
use py_xroot_dclient.Session.Pool.Every.{close_all-idle}

-- How often a session is idle in the pool, and how often it has been closed.
abbrev pub idle_count : ℕ → World → ℕ
idle_count s w = count s (all_sessions w.idle)

abbrev pub closed_count : ℕ → World → ℕ
closed_count s w = count s w.closed

abbrev pub found_count : ℕ → Option ℕ → ℕ
found_count s none = 0
found_count s (some f) = count s (f ∷ [])

module _ (s : ℕ) where
  bucket_of-count :
      (d : Idle) (k : Key) (b : Bucket)
      → count s (all_sessions (put_bucket d k b)) + count s (sessions (bucket_of d k))
        ≡ count s (all_sessions d) + count s (sessions b)
  unfolding bucket_of put_bucket
  bucket_of-count [] k b = omega (arith, count-append (sessions b) [] s)
  bucket_of-count ((j, c) ∷ d) k b = elim (Bool-cases (key_eq j k)) [
    | inl e ↦ rw e (
        omega (
          arith,
          count-append (sessions b) (all_sessions d) s,
          count-append (sessions c) (all_sessions d) s,
        ))
    | inr e ↦ rw e (
        omega (
          arith,
          count-append (sessions c) (all_sessions (put_bucket d k b)) s,
          count-append (sessions c) (all_sessions d) s,
          bucket_of-count d k b,
        ))
  ]

  pop_bucket-count :
      (d : Idle) (k : Key)
      → count s (all_sessions (pop_bucket d k)) + count s (sessions (bucket_of d k))
        ≡ count s (all_sessions d)
  unfolding bucket_of pop_bucket
  pop_bucket-count [] k = refl
  pop_bucket-count ((j, c) ∷ d) k = elim (Bool-cases (key_eq j k)) [
    | inl e ↦ rw e (omega (arith, count-append (sessions c) (all_sessions d) s))
    | inr e ↦ rw e (
        omega (
          arith,
          count-append (sessions c) (all_sessions (pop_bucket d k)) s,
          count-append (sessions c) (all_sessions d) s,
          pop_bucket-count d k,
        ))
  ]

  store_rest-count :
      (w : World) (k : Key) (b : Bucket)
      → idle_count s (store_rest w k b) + count s (sessions (bucket_of w.idle k))
        ≡ idle_count s w + count s (sessions b)
  unfolding store_rest
  store_rest-count w k [] = omega (arith, pop_bucket-count w.idle k)
  store_rest-count w k (e ∷ b) = bucket_of-count w.idle k (e ∷ b)

  store_rest-closed : (w : World) (k : Key) (b : Bucket) → (store_rest w k b).closed ≡ w.closed
  unfolding store_rest
  store_rest-closed w k [] = refl
  store_rest-closed w k (e ∷ b) = refl

  close_all-count :
      (ss : List ℕ) (w : World) → closed_count s (close_all ss w) ≡ count s ss + closed_count s w
  unfolding close_all close_session
  close_all-count [] w = omega arith
  close_all-count (t ∷ ss) w = ground (arith, close_all-count ss (close_session t w))

  elem-count : (ts : List ℕ) → elem s ts ≡ false → count s ts ≡ 0
  unfolding elem
  elem-count [] h = refl
  elem-count (t ∷ ts) h = ground (arith, elem-count ts)

  pop_live-count :
      (ttl now : ℕ) (w : World) (b : Bucket)
      → is_closed w s ≡ false
      → count s (sessions b)
        ≡ found_count s (pop_live ttl now w b).found
          + count s (pop_live ttl now w b).stale
          + count s (sessions (pop_live ttl now w b).rest)
  unfolding pop_live
  pop_live-count ttl now w [] o = refl
  pop_live-count ttl now w ((at, t) ∷ b) o =
      let later = pop_live-count ttl now w b o in
      let P = λ (p : Popped).
        count s (t ∷ sessions b)
        ≡ found_count s p.found + count s p.stale + count s (sessions p.rest) in
      on_test P (is_closed w t) (λ e. grind (arith, later))
        (λ e. on_bool P (is_stale ttl now at) (grind (arith, later)) (grind arith))

  kept-count :
      (ttl now : ℕ) (b : Bucket)
      → count s (sessions b)
        ≡ count s (sessions (current ttl now b)) + count s (sessions (expired ttl now b))
  unfolding current expired
  kept-count ttl now [] = refl
  kept-count ttl now ((at, t) ∷ b) = ground (arith, kept-count ttl now b)

  add_entry-count :
      (c : Config) (then_now t : ℕ) (b : Bucket)
      → count s (t ∷ []) + count s (sessions b)
        ≡ (if not (is_full c b) then 0 else count s (t ∷ []))
          + count s (sessions (add_entry c then_now t b))
  unfolding add_entry
  add_entry-count c then_now t b = elim (Bool-cases (is_full c b)) [
    | inl e ↦ rw e (omega arith)
    | inr e ↦ rw e (ground arith)
  ]

  abbrev Acquired : World → Option ℕ × World → Type 0
  Acquired w r = idle_count s w ≡ found_count s r.0 + idle_count s r.1 + closed_count s r.1

  -- A session that was not closed and that the pool held, it still holds after `acquire`, or has
  -- handed out, or has closed, each as often as it held it: none is lost and none is doubled.
  pub acquire-accounts :
      (c : Config) (now : ℕ) (k : Key) (w : World)
      → is_closed w s ≡ false
      → idle_count s w
        ≡ found_count s (acquire c now k w).0
          + idle_count s (acquire c now k w).1
          + closed_count s (acquire c now k w).1
  unfolding acquire is_closed
  acquire-accounts c now k w o =
      let b = bucket_of w.idle k in
      let p = pop_live c.pool_idle_ttl now w b in
      on_bool (Acquired w) (pooling_off c) (omega (arith, elem-count w.closed o)) (
        rw (close_all-idle p.stale (store_rest w k p.rest)) (
          omega (
            arith,
            pop_live-count c.pool_idle_ttl now w b o,
            close_all-count p.stale (store_rest w k p.rest),
            store_rest-count w k p.rest,
            ap (count s) (store_rest-closed w k p.rest),
            elem-count w.closed o,
          )))

  abbrev Released : ℕ → World → Bool × World → Type 0
  Released t w r =
      count s (t ∷ []) + idle_count s w
      ≡ (if r.0 then 0 else count s (t ∷ [])) + idle_count s r.1 + closed_count s r.1

  -- After `release` of `t` a session that was not closed is in the pool or closed as often as it was
  -- in the pool before or is `t`, but for a `t` that was refused, which is still the caller's.
  pub release-accounts :
      (c : Config) (now then_now : ℕ) (k : Key) (t : ℕ) (w : World)
      → is_closed w s ≡ false
      → count s (t ∷ []) + idle_count s w
        ≡ (if (release c now then_now k t w).0 then 0 else count s (t ∷ []))
          + idle_count s (release c now then_now k t w).1
          + closed_count s (release c now then_now k t w).1
  unfolding release is_closed
  release-accounts c now then_now k t w o =
      let b = bucket_of w.idle k in
      let live = current c.pool_idle_ttl now b in
      let dead = sessions (expired c.pool_idle_ttl now b) in
      let w' = record w { idle = put_bucket w.idle k (add_entry c then_now t live) } in
      on_bool (Released t w) (pooling_off c || elem t w.closed)
        (omega (arith, elem-count w.closed o))
        (rw (close_all-idle dead w') (
          omega (
            arith,
            kept-count c.pool_idle_ttl now b,
            add_entry-count c then_now t live,
            close_all-count dead w',
            bucket_of-count w.idle k (add_entry c then_now t live),
            elem-count w.closed o,
          )))

  -- `clear` empties the pool and closes what it held.
  pub clear-accounts :
      (w : World)
      → is_closed w s ≡ false
      → (idle_count s (clear w) ≡ 0) × (closed_count s (clear w) ≡ idle_count s w)
  unfolding clear is_closed
  clear-accounts w o =
      let w' = record w { idle = [] } in
      let ss = all_sessions w.idle in
      (
        ap (λ (d : Idle). count s (all_sessions d)) (close_all-idle ss w'),
        omega (arith, close_all-count ss w', elem-count w.closed o),
      )
