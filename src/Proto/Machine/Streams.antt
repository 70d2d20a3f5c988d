-- ===== src/Proto/Machine/Streams.antt =====
-- The stream ids of a session of src/xrd/proto/machine.py: no id is in flight twice, or in flight
-- and free, or free twice, and all are ids that `_acquire_sid` hands out.
use py_xroot_dclient.Proto.Machine.Exec.{M, continue}
use py_xroot_dclient.Base.Dict.{Dict, keys, get, get-count, put, count-put, count-put_old}
use py_xroot_dclient.Errors.{Result, ok, err}
use py_xroot_dclient.Proto.Machine.State.{Machine, first_sid, Pending}
use py_xroot_dclient.Base.{
  ℕ, ◌≤◌, count, ◌≡◌, ◌<◌, none, some, ◌+◌, Option-cases, refl, inl, inr, arith, List, [], ◌∷◌,
}

-- How often an id stands among those in flight and those that are free.
abbrev pub uses : ℕ → Machine → ℕ
uses s m = count s (keys m.pending) + count s m.free

abbrev pub InRange : ℕ → Type 0
InRange s = (first_sid ≤ s) × (s ≤ 0xffff)

abbrev pub AreStreams : Machine → Type 0
AreStreams m = ((s : ℕ) → uses s m ≤ 1) × ((s : ℕ) → 0 < uses s m → InRange s) × InRange m.next_sid

abbrev pub IsFree : ℕ → Machine → Type 0
IsFree sid m = (uses sid m ≡ 0) × InRange sid

pub on_continue :
    {A B : Type 0} (P : Machine → Type 0) (r : Result A) (f : A → M B) (n : Machine)
    → P n
    → ((a : A) → P (f a n).1)
    → P (continue r f n).1
on_continue P (ok a) f n h k = k a
on_continue P (err e) f n h k = h

pub get-unused : {V : Type 0} (d : Dict V) (k : ℕ) → count k (keys d) ≡ 0 → get d k ≡ none
get-unused d k e = elim (Option-cases (get d k)) [
  | inl q ↦ q
  | inr (v, q) ↦ absurd (omega (arith, get-count d k v q))
]

-- What an acquisition leaves: the invariant, and an id that no one has, if there is one.
abbrev pub Acquired : Result ℕ × Machine → Type 0
Acquired (ok sid, m) = AreStreams m × IsFree sid m
Acquired (err e, m) = AreStreams m

pub on_items :
    {A R : Type 0} (P : R → Type 0) (xs : List A) {a : R} {f : A → List A → R}
    → (xs ≡ [] → P a)
    → ((x : A) (ys : List A) → xs ≡ x ∷ ys → P (f x ys))
    → P (elim xs [ [] ↦ a | x ∷ ys ↦ f x ys ])
on_items P [] h k = h refl
on_items P (x ∷ ys) h k = k x ys refl

-- A stream that was not in flight.
pub put-AreStreams :
    (v : Pending) (sid : ℕ) (m : Machine)
    → AreStreams m
    → IsFree sid m
    → AreStreams (record m { pending = put m.pending sid v })
put-AreStreams v sid m (once, range, next) (unused, fits) =
    let q = get-unused m.pending sid (omega arith) in
    (
      (λ s. ground (arith, once s, unused, count-put m.pending sid s v q)),
      (λ s h. ground (arith, range s, fits, h, count-put m.pending sid s v q)),
      next,
    )

-- A stream that is in flight.
pub put_old-AreStreams :
    (v w : Pending) (sid : ℕ) (m : Machine)
    → AreStreams m
    → get m.pending sid ≡ some w
    → AreStreams (record m { pending = put m.pending sid v })
put_old-AreStreams v w sid m (once, range, next) q = (
  (λ s. omega (arith, once s, count-put_old m.pending sid s v w q)),
  (λ s h. range s (omega (arith, h, count-put_old m.pending sid s v w q))),
  next,
)
