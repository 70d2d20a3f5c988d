-- ===== src/Session/World.antt =====
-- What the pool and the routers of src/xrd/session share. A session is an object of its own that
-- may be held in several places, so it is a number here, and whether it is closed is in the world.
use py_xroot_dclient.Base.Text.{bytes_eq_iff}
use py_xroot_dclient.Base.Int.{ℤ, pos, negsuc}
use py_xroot_dclient.Crypto.Sigver.{elem}
use py_xroot_dclient.Base.{
  ℕ, ◌≡◌, Bytes, List, Bool, ◌∷◌, true, bytes_eq, if◌then◌else◌, ◌&&◌, ◌↔◌, [], arith, ◌==◌, ◌++◌,
  false,
}

-- `Key` of src/xrd/session/pool.py: scheme, host, port and the digest of an identity.
pub record Key : Type 0 where
  pub scheme : Bytes
  pub host : Bytes
  pub port : ℤ
  pub identity : Bytes

infix 50 ◌==ℤ◌
abbrev pub ◌==ℤ◌ : ℤ → ℤ → Bool
◌==ℤ◌ (pos a) (pos b) = a == b
◌==ℤ◌ (pos a) (negsuc b) = false
◌==ℤ◌ (negsuc a) (pos b) = false
◌==ℤ◌ (negsuc a) (negsuc b) = a == b

unfoldable pub key_eq : Key → Key → Bool
key_eq a b =
    bytes_eq a.scheme b.scheme
    && bytes_eq a.host b.host
    && a.port ==ℤ b.port
    && bytes_eq a.identity b.identity

==ℤ_iff : (a b : ℤ) → ((a ==ℤ b) ≡ true) ↔ (a ≡ b)
==ℤ_iff (pos a) (pos b) = (λ h. ground arith, λ h. ground arith)
==ℤ_iff (pos a) (negsuc b) = (λ h. cc, λ h. cc)
==ℤ_iff (negsuc a) (pos b) = (λ h. cc, λ h. cc)
==ℤ_iff (negsuc a) (negsuc b) = (λ h. ground arith, λ h. ground arith)

pub key_eq_iff : (a b : Key) → (key_eq a b ≡ true) ↔ (a ≡ b)
unfolding key_eq
key_eq_iff a b = (
  λ h. ground (
    arith,
    bytes_eq_iff a.scheme b.scheme,
    bytes_eq_iff a.host b.host,
    ==ℤ_iff a.port b.port,
    bytes_eq_iff a.identity b.identity,
  ),
  λ h. ground (
    arith,
    bytes_eq_iff a.scheme b.scheme,
    bytes_eq_iff a.host b.host,
    ==ℤ_iff a.port b.port,
    bytes_eq_iff a.identity b.identity,
  ),
)

-- An idle session, with the time at which it was put into the pool.
abbrev pub Entry : Type 0
Entry = ℕ × ℕ

-- A bucket has the end of Python's list first: the newest entry.
abbrev pub Bucket : Type 0
Bucket = List Entry

abbrev pub Idle : Type 0
Idle = List (Key × Bucket)

-- `SessionPool._idle`, and the sessions that are closed.
pub record World : Type 0 where
  pub idle : Idle
  pub closed : List ℕ

unfoldable pub bucket_of : Idle → Key → Bucket
bucket_of [] k = []
bucket_of ((j, b) ∷ d) k = let rest = bucket_of d k in if key_eq j k then b else rest

-- `_idle[k] = b`
unfoldable pub put_bucket : Idle → Key → Bucket → Idle
put_bucket [] k b = (k, b) ∷ []
put_bucket ((j, c) ∷ d) k b =
    let rest = put_bucket d k b in if key_eq j k then (j, b) ∷ d else (j, c) ∷ rest

-- `_idle.pop(k, None)`
unfoldable pub pop_bucket : Idle → Key → Idle
pop_bucket [] k = []
pop_bucket ((j, c) ∷ d) k = let rest = pop_bucket d k in if key_eq j k then d else (j, c) ∷ rest

-- The sessions of a bucket, and of all buckets.
abbrev pub sessions : Bucket → List ℕ
sessions [] = []
sessions ((at, s) ∷ b) = s ∷ sessions b

abbrev pub all_sessions : Idle → List ℕ
all_sessions [] = []
all_sessions ((k, b) ∷ d) = sessions b ++ all_sessions d

-- `session.closed`
unfoldable pub is_closed : World → ℕ → Bool
unfolding elem
is_closed w s = elem s w.closed

-- `session.close()`
unfoldable pub close_session : ℕ → World → World
close_session s w = record w { closed = s ∷ w.closed }

-- The loop of closing.
unfoldable pub close_all : List ℕ → World → World
close_all [] w = w
close_all (s ∷ ss) w = close_all ss (close_session s w)
