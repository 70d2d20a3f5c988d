-- ===== src/Session/Pool/History.antt =====
-- Whose connection the pool of src/xrd/session/pool.py hands out, over any history of its use.
use py_xroot_dclient.Base.Cases.{on_bool, on_test}
use py_xroot_dclient.Base.Text.{codes}
use mathlib.Core.Option.{some-injective}
use py_xroot_dclient.Base.{
  refl, Bool, ap, if◌then◌else◌, some, ◌||◌, ◌≤◌, false, ◌+◌, Option, subst, ltb→le,
}
use py_xroot_dclient.Base.{ℕ, Bytes, List, [], ◌≡◌, true, ◌∷◌, All}
use py_xroot_dclient.Session.World.{Key, Entry, Bucket, World, close_session, bucket_of, is_closed}
use py_xroot_dclient.Session.Pool.{
  acquire, release, forget, clear, pop_live, Popped, pooling_off, is_stale,
}
use py_xroot_dclient.Session.Pool.Every.{
  Every, Part, part_nil, part_keep, part_skip, acquire-Every, release-Every, close_all-idle,
  Every-weaken, bucket_of-Every,
}
use py_xroot_dclient.Session.Identity.{
  Value, key_of, IsRepr, digested, identity_values, key_of-credentials,
  identity_values-SameCredentials, SameCredentials,
}
use py_xroot_dclient.Config.{Config}
use py_xroot_dclient.Url.{XRootDUrl, use_tls}

-- An operation on the pool, or the closing of a session by whoever has it.
pub data PoolCall : Type 0 where
  call_acquire : XRootDUrl → Config → ℕ → PoolCall
  call_release : XRootDUrl → Config → ℕ → ℕ → ℕ → PoolCall
  call_forget call_clear : PoolCall
  call_close : ℕ → PoolCall

module _ (repr : Value → Bytes) (sha256 : Bytes → Bytes) where
  unfoldable pub perform : PoolCall → World → World
  perform (call_acquire u c now) w = (acquire c now (key_of repr sha256 u c) w).1
  perform (call_release u c now then_now s) w =
      (release c now then_now (key_of repr sha256 u c) s w).1
  perform call_forget w = forget w
  perform call_clear w = clear w
  perform (call_close s) w = close_session s w

  -- The pool after some calls, the last of which stands first.
  unfoldable pub after : List PoolCall → World
  after [] = record { idle = []; closed = [] }
  after (call ∷ calls) = perform call (after calls)

  -- Someone gave the session back as a connection of the key.
  pub data Released (k : Key) (s : ℕ) : List PoolCall → Type 0 where
    released_here :
        (u : XRootDUrl) (c : Config) (now then_now : ℕ) (calls : List PoolCall)
        → key_of repr sha256 u c ≡ k
        → Released k s (call_release u c now then_now s ∷ calls)
    released_before :
        (call : PoolCall) {calls : List PoolCall} → Released k s calls → Released k s (call ∷ calls)

  abbrev From : List PoolCall → Key → Bucket → Type 0
  From calls k b = All (λ (e : Entry). Released k e.1 calls) b

  From-Part :
      (calls : List PoolCall) (k : Key) (c b : Bucket) → Part c b → From calls k b → From calls k c
  From-Part calls k _ _ part_nil h = h
  From-Part calls k _ _ (part_keep e p) (h, hs) = (h, From-Part calls k _ _ p hs)
  From-Part calls k _ _ (part_skip e p) (h, hs) = From-Part calls k _ _ p hs

  From-before :
      (call : PoolCall) (calls : List PoolCall) (k : Key) (b : Bucket)
      → From calls k b
      → From (call ∷ calls) k b
  From-before call calls k [] h = h
  From-before call calls k (e ∷ b) (h, hs) = (released_before call h, From-before call calls k b hs)

  after-Released : (calls : List PoolCall) → Every (From calls) (after calls).idle
  unfolding after perform forget clear close_session
  after-Released [] = tt
  after-Released (call_acquire u c now ∷ calls) =
      acquire-Every (From (call_acquire u c now ∷ calls)) (λ k. tt)
        (From-Part (call_acquire u c now ∷ calls)) c now (key_of repr sha256 u c) (after calls)
        (Every-weaken _ _ (From-before (call_acquire u c now) calls) _ (after-Released calls))
  after-Released (call_release u c now then_now s ∷ calls) =
      let call = call_release u c now then_now s in
      release-Every (From (call ∷ calls)) (λ k. tt) (From-Part (call ∷ calls)) c now then_now
        (key_of repr sha256 u c) s (after calls)
        (λ b off room f. (released_here u c now then_now calls refl, f))
        (Every-weaken _ _ (From-before call calls) _ (after-Released calls))
  after-Released (call_forget ∷ calls) = tt
  after-Released (call_clear ∷ calls) = rw close_all-idle tt
  after-Released (call_close s ∷ calls) =
      Every-weaken _ _ (From-before (call_close s) calls) _ (after-Released calls)

pop_live-found :
    (P : Entry → Type 0) (ttl now : ℕ) (w : World) (b : Bucket) (s : ℕ)
    → All P b
    → (pop_live ttl now w b).found ≡ some s
    → (at : ℕ) × P (at, s) × (now ≤ at + ttl) × (is_closed w s ≡ false)
unfolding pop_live
pop_live-found P ttl now w [] s h = λ e. cc
pop_live-found P ttl now w ((at, t) ∷ b) s (h, hs) =
    let later = pop_live-found P ttl now w b s hs in
    let Wanted = (at : ℕ) × P (at, s) × (now ≤ at + ttl) × (is_closed w s ≡ false) in
    let Q = λ (p : Popped). p.found ≡ some s → Wanted in
    on_test Q (is_closed w t) (λ e. later)
      (λ o.
        on_test Q (is_stale ttl now at) (λ e. later)
          (λ fresh e.
            let same = some-injective t s e in
            (
              at,
              subst (λ (x : ℕ). P (at, x)) same h,
              ltb→le (at + ttl) now fresh,
              subst (λ (x : ℕ). is_closed w x ≡ false) same o,
            )))

-- `acquire` gives a session that was idle for its key and open, and not for longer than allowed.
pub acquire-live :
    (c : Config) (now : ℕ) (k : Key) (w : World) (s : ℕ) (P : Entry → Type 0)
    → All P (bucket_of w.idle k)
    → (acquire c now k w).0 ≡ some s
    → (at : ℕ) × P (at, s) × (now ≤ at + c.pool_idle_ttl) × (is_closed w s ≡ false)
unfolding acquire
acquire-live c now k w s P h =
    on_bool
      (λ (r : Option ℕ × World).
        r.0 ≡ some s
        → (at : ℕ) × P (at, s) × (now ≤ at + c.pool_idle_ttl) × (is_closed w s ≡ false))
      (pooling_off c) (λ e. cc) (pop_live-found P c.pool_idle_ttl now w (bucket_of w.idle k) s h)

-- The same server, in the same way, with the same credentials.
pub record SameParty (u u' : XRootDUrl) (c c' : Config) : Type 0 where
  pub host : u.host ≡ u'.host
  pub port : u.port ≡ u'.port
  pub tls : (use_tls u || c.require_tls) ≡ (use_tls u' || c'.require_tls)
  pub credentials : SameCredentials u u' c c'

-- The session is among those given back for the same party.
pub data GivenBack (u : XRootDUrl) (c : Config) (s : ℕ) : List PoolCall → Type 0 where
  given_here :
      (u' : XRootDUrl) (c' : Config) (now then_now : ℕ) (calls : List PoolCall)
      → SameParty u' u c' c
      → GivenBack u c s (call_release u' c' now then_now s ∷ calls)
  given_before :
      (call : PoolCall) {calls : List PoolCall}
      → GivenBack u c s calls
      → GivenBack u c s (call ∷ calls)

module _ (repr : Value → Bytes) (sha256 : Bytes → Bytes) (u : XRootDUrl) (c : Config) where
  -- The digest does not take the text for `u` and `c` to that of another user of the pool.
  abbrev pub NoCollision : List PoolCall → Type 0
  NoCollision [] = Unit
  NoCollision (call_release u' c' now then_now s ∷ calls) =
      (sha256 (digested repr (identity_values u' c')) ≡ sha256 (digested repr (identity_values u c))
        → digested repr (identity_values u' c') ≡ digested repr (identity_values u c))
      × NoCollision calls
  NoCollision (_ ∷ calls) = NoCollision calls

  tls_name :
      (b d : Bool)
      → (if b then codes "roots" else codes "root") ≡ (if d then codes "roots" else codes "root")
      → b ≡ d
  tls_name true true e = refl
  tls_name true false e = cc
  tls_name false true e = cc
  tls_name false false e = refl

  NoCollision-tail :
      (call : PoolCall) (calls : List PoolCall) → NoCollision (call ∷ calls) → NoCollision calls
  NoCollision-tail (call_acquire u' c' now) calls free = free
  NoCollision-tail (call_release u' c' now then_now t) calls free = free.1
  NoCollision-tail call_forget calls free = free
  NoCollision-tail call_clear calls free = free
  NoCollision-tail (call_close t) calls free = free

  Released-GivenBack :
      (is_repr : IsRepr repr) (s : ℕ) {calls : List PoolCall}
      → NoCollision calls
      → Released repr sha256 (key_of repr sha256 u c) s calls
      → GivenBack u c s calls
  unfolding key_of
  Released-GivenBack is_repr s free (released_here u' c' now then_now calls e) =
      given_here u' c' now then_now calls (record {
        host = ap (λ (k : Key). k.host) e;
        port = ap (λ (k : Key). k.port) e;
        tls = tls_name _ _ (ap (λ (k : Key). k.scheme) e);
        credentials =
            identity_values-SameCredentials u' u c' c
              (key_of-credentials repr is_repr sha256 u' u c' c free.0 e);
      })
  Released-GivenBack is_repr s free (released_before call r) =
      given_before call (Released-GivenBack is_repr s (NoCollision-tail call _ free) r)

  -- Whatever the pool was used for before, the session that `acquire` gives for a URL and a
  -- configuration was given back by someone with the same server, use of TLS and credentials, and
  -- is open, if the digest takes no other user's credentials to the same value.
  pub acquire_same_party :
      (is_repr : IsRepr repr) (calls : List PoolCall) (now s : ℕ)
      → NoCollision calls
      → (acquire c now (key_of repr sha256 u c) (after repr sha256 calls)).0 ≡ some s
      → GivenBack u c s calls × (is_closed (after repr sha256 calls) s ≡ false)
  acquire_same_party is_repr calls now s free e =
      let k = key_of repr sha256 u c in
      let w = after repr sha256 calls in
      let r =
        acquire-live c now k w s (λ (x : Entry). Released repr sha256 k x.1 calls)
          (bucket_of-Every (From repr sha256 calls) w.idle k tt (after-Released repr sha256 calls))
          e in
      (Released-GivenBack is_repr s free r.1, r.3)
