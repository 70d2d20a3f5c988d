-- ===== src/Session/Pool/Every.antt =====
-- A property of every entry of the pool, through the operations of src/xrd/session/pool.py.
use py_xroot_dclient.Base.Cases.{on_bool, on_test}
use py_xroot_dclient.Config.{Config}
use py_xroot_dclient.Base.{
  ◌∷◌, List, [], ℕ, ◌≡◌, subst, refl, Option, false, sym, Bool, ◌||◌, arith,
}
use py_xroot_dclient.Session.World.{
  Key, Entry, Bucket, Idle, World, bucket_of, put_bucket, pop_bucket, close_session, close_all,
  key_eq, key_eq_iff, is_closed,
}
use py_xroot_dclient.Session.Pool.{
  acquire, release, pop_live, store_rest, current, Popped, add_entry, is_stale, pooling_off,
  is_full,
}

-- The entries of the first bucket, less some, in their order.
pub data Part : Bucket → Bucket → Type 0 where
  part_nil : Part [] []
  part_keep : (e : Entry) {c b : Bucket} → Part c b → Part (e ∷ c) (e ∷ b)
  part_skip : (e : Entry) {c b : Bucket} → Part c b → Part c (e ∷ b)

Part-refl : (b : Bucket) → Part b b
Part-refl [] = part_nil
Part-refl (e ∷ b) = part_keep e (Part-refl b)

Part-nil : (b : Bucket) → Part [] b
Part-nil [] = part_nil
Part-nil (e ∷ b) = part_skip e (Part-nil b)

pub pop_live-Part : (ttl now : ℕ) (w : World) (b : Bucket) → Part (pop_live ttl now w b).rest b
unfolding pop_live
pop_live-Part ttl now w [] = part_nil
pop_live-Part ttl now w ((at, s) ∷ b) =
    let later = part_skip (at, s) (pop_live-Part ttl now w b) in
    let P = λ (p : Popped). Part p.rest ((at, s) ∷ b) in
    on_bool P (is_closed w s) later
      (on_bool P (is_stale ttl now at) later (part_skip (at, s) (Part-refl b)))

pub current-Part : (ttl now : ℕ) (b : Bucket) → Part (current ttl now b) b
unfolding current
current-Part ttl now [] = part_nil
current-Part ttl now ((at, s) ∷ b) =
    on_bool (λ c. Part c ((at, s) ∷ b)) (is_stale ttl now at)
      (part_skip (at, s) (current-Part ttl now b)) (part_keep (at, s) (current-Part ttl now b))

abbrev pub Every : (Key → Bucket → Type 0) → Idle → Type 0
Every Q [] = Unit
Every Q ((k, b) ∷ d) = Q k b × Every Q d

pub close_all-idle : (ss : List ℕ) (w : World) → (close_all ss w).idle ≡ w.idle
unfolding close_all close_session
close_all-idle [] w = refl
close_all-idle (s ∷ ss) w = close_all-idle ss (close_session s w)

pub Every-weaken :
    (Q R : Key → Bucket → Type 0)
    → ((k : Key) (b : Bucket) → Q k b → R k b)
    → (d : Idle) → Every Q d
    → Every R d
Every-weaken Q R f [] h = h
Every-weaken Q R f ((k, b) ∷ d) (h, hs) = (f k b h, Every-weaken Q R f d hs)

module _ (Q : Key → Bucket → Type 0) where
  pub bucket_of-Every : (d : Idle) (k : Key) → Q k [] → Every Q d → Q k (bucket_of d k)
  unfolding bucket_of
  bucket_of-Every [] k q h = q
  bucket_of-Every ((j, b) ∷ d) k q (h, hs) =
      on_test (Q k) (key_eq j k) (λ e. subst (λ (i : Key). Q i b) ((key_eq_iff j k).0 e) h)
        (λ e. bucket_of-Every d k q hs)

  pub put_bucket-Every :
      (d : Idle) (k : Key) (b : Bucket) → Q k b → Every Q d → Every Q (put_bucket d k b)
  unfolding put_bucket
  put_bucket-Every [] k b q h = (q, h)
  put_bucket-Every ((j, c) ∷ d) k b q (h, hs) =
      on_test (Every Q) (key_eq j k)
        (λ e. (subst (λ (i : Key). Q i b) (sym ((key_eq_iff j k).0 e)) q, hs))
        (λ e. (h, put_bucket-Every d k b q hs))

  pub pop_bucket-Every : (d : Idle) (k : Key) → Every Q d → Every Q (pop_bucket d k)
  unfolding pop_bucket
  pop_bucket-Every [] k h = h
  pop_bucket-Every ((j, c) ∷ d) k (h, hs) =
      on_bool (Every Q) (key_eq j k) hs (h, pop_bucket-Every d k hs)

  -- A property that a bucket hands on to its parts, and that the empty one has.
  module _ (of_nil : (k : Key) → Q k [])
      (of_part : (k : Key) (c b : Bucket) → Part c b → Q k b → Q k c) where
    store_rest-Every :
        (w : World) (k : Key) (b : Bucket)
        → Q k b
        → Every Q w.idle
        → Every Q (store_rest w k b).idle
    unfolding store_rest
    store_rest-Every w k [] q h = pop_bucket-Every w.idle k h
    store_rest-Every w k (e ∷ b) q h = put_bucket-Every w.idle k (e ∷ b) q h

    pub acquire-Every :
        (c : Config) (now : ℕ) (k : Key) (w : World)
        → Every Q w.idle
        → Every Q (acquire c now k w).1.idle
    unfolding acquire
    acquire-Every c now k w h =
        let b = bucket_of w.idle k in
        let rest =
          of_part k _ _ (pop_live-Part c.pool_idle_ttl now w b)
            (bucket_of-Every w.idle k (of_nil k) h) in
        on_bool (λ (r : Option ℕ × World). Every Q r.1.idle) (pooling_off c) h
          (rw close_all-idle (store_rest-Every w k _ rest h))

    pub release-Every :
        (c : Config) (now then_now : ℕ) (k : Key) (s : ℕ) (w : World)
        → ((b : Bucket)
            → pooling_off c ≡ false
            → is_full c b ≡ false
            → Q k b
            → Q k ((then_now, s) ∷ b))
        → Every Q w.idle
        → Every Q (release c now then_now k s w).1.idle
    unfolding release add_entry
    release-Every c now then_now k s w add h =
        let b = bucket_of w.idle k in
        let live = current c.pool_idle_ttl now b in
        let kept =
          of_part k _ _ (current-Part c.pool_idle_ttl now b)
            (bucket_of-Every w.idle k (of_nil k) h) in
        on_test (λ (r : Bool × World). Every Q r.1.idle) (pooling_off c || is_closed w s) (λ e. h)
          (λ off. rw close_all-idle (
            put_bucket-Every w.idle k _
              (on_test (Q k) (is_full c live) (λ e. kept) (λ e. add live (ground arith) e kept)) h))
