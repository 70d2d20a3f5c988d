-- ===== src/Proto/Machine/Outbound/Submitted.antt =====
-- A submitted request is in flight under an id that no other stream has.
use py_xroot_dclient.Base.Cases.{on_bool, on_option}
use py_xroot_dclient.Proto.Machine.Outbound.Streams.{acquire_sid-Acquired}
use py_xroot_dclient.Proto.Machine.Streams.{Acquired, AreStreams, IsFree, uses, get-unused}
use py_xroot_dclient.Proto.Frames.{encode}
use py_xroot_dclient.Proto.Machine.Secure.{on_ready, on_list}
use py_xroot_dclient.Base.Dict.{get, put, get-put, Dict, keys}
use py_xroot_dclient.Base.{
  ℕ, Bytes, ◌≡◌, some, Bool, refl, arith, ◌&&◌, not, subst, ◌==◌, is_nil, none, ◌∙◌, ap, count,
}
use py_xroot_dclient.Proto.Machine.Exec.{write_path, M, continue, pure}
use py_xroot_dclient.Proto.Requests.{Request, pathid, path_data}
use py_xroot_dclient.Proto.Machine.Outbound.{
  route, submit, send, enqueue, submit_ready, sign_frame, acquire_sid,
}
use py_xroot_dclient.Errors.{Result, Error, err, ok, ok-injective}
use py_xroot_dclient.Proto.Machine.State.{Pending, Env, Machine}

abbrev pub InFlight : Request → ℕ → Machine → Type 0
InFlight r sid m = (p : Pending) × (get m.pending sid ≡ some p) × (p.request ≡ r)

on_ok :
    {A B : Type 0} (P : Result B × Machine → Type 0) (r : Result A) (f : A → M B) (n : Machine)
    → ((a : A) → P (f a n))
    → ((e : Error) → P (err e, n))
    → P (continue r f n)
on_ok P (ok a) f n h k = h a
on_ok P (err e) f n h k = k e

put-InFlight :
    (v : Pending) (r : Request) (sid : ℕ) (m : Machine)
    → v.request ≡ r
    → InFlight r sid (record m { pending = put m.pending sid v })
put-InFlight v r sid m e = (v, ground (arith, get-put m.pending sid sid v), e)

enqueue-InFlight :
    (r : Request) (sid : ℕ) (frame path : Bytes) (m : Machine)
    → InFlight r sid (enqueue r sid frame path m)
unfolding enqueue
enqueue-InFlight r sid frame path m = put-InFlight _ r sid m refl

route-InFlight :
    (r : Request) (sid : ℕ) (frame : Bytes) (b : Bool) (m : Machine)
    → InFlight r sid m
    → InFlight r sid (route r frame b m)
unfolding route write_path
route-InFlight r sid frame b m h =
    on_bool (InFlight r sid) (b && not (pathid r == 0))
      (on_bool (InFlight r sid) (is_nil (path_data r)) h h)
      (on_bool (InFlight r sid) (is_nil (path_data r)) h h)

send-InFlight :
    (env : Env) (r : Request) (sid : ℕ) (path : Bytes) (b : Bool) (m : Machine) (x : Unit {0})
    → (send env r sid path b m).0 ≡ ok x
    → InFlight r sid (send env r sid path b m).1
unfolding send
send-InFlight env r sid path b m x =
    on_ok (λ q. q.0 ≡ ok x → InFlight r sid q.1) (encode r sid) _ m
      (λ frame.
        on_ok (λ q. q.0 ≡ ok x → InFlight r sid q.1) (sign_frame env r sid frame m).0 _
          (sign_frame env r sid frame m).1
          (λ signed h.
            route-InFlight r sid signed b _
              (enqueue-InFlight r sid signed path (sign_frame env r sid frame m).1))
          (λ e h. cc))
      (λ e h. cc)

submit_ready-InFlight :
    (env : Env) (r : Request) (path : Bytes) (b : Bool) (m : Machine) (sid : ℕ)
    → (submit_ready env r path b m).0 ≡ ok sid
    → InFlight r sid (submit_ready env r path b m).1
unfolding submit_ready
submit_ready-InFlight env r path b m sid =
    on_ok (λ q. q.0 ≡ ok sid → InFlight r sid q.1) (acquire_sid m).0 _ (acquire_sid m).1
      (λ y.
        sent y (send env r y path b (acquire_sid m).1)
          (send-InFlight env r y path b (acquire_sid m).1 tt))
      (λ e h. cc)
  where
    sent :
        (y : ℕ) (q : Result (Unit {0}) × Machine)
        → (q.0 ≡ ok tt → InFlight r y q.1)
        → (continue q.0 (λ _. pure y) q.1).0 ≡ ok sid
        → InFlight r sid (continue q.0 (λ _. pure y) q.1).1
    sent y (ok tt, n) h e = subst (λ s. InFlight r s n) (ok-injective y sid e) (h refl)
    sent y (err x, n) h e = cc

pub submit-InFlight :
    (env : Env) (r : Request) (path : Bytes) (b : Bool) (m : Machine) (sid : ℕ)
    → (submit env r path b m).0 ≡ ok sid
    → InFlight r sid (submit env r path b m).1
unfolding submit
submit-InFlight env r path b m sid =
    on_ready {R = Result ℕ × Machine} (λ q. q.0 ≡ ok sid → InFlight r sid q.1) m.state
      (submit_ready-InFlight env r path b m sid) (λ e. cc)

-- An acquisition writes the free ids and the counter only.
acquire_sid-pending : (m : Machine) → (acquire_sid m).1.pending ≡ m.pending
unfolding acquire_sid
acquire_sid-pending m =
    on_list {R = Result ℕ × Machine} (λ q. q.1.pending ≡ m.pending) m.free
      (on_option {R = Result ℕ × Machine} (λ q. q.1.pending ≡ m.pending) (get m.pending m.next_sid)
        refl (λ p. refl))
      (λ sid free. refl)

continue-eq-ok :
    {A B : Type 0} (r : Result A) (f : A → M B) (n : Machine) (b : B)
    → (continue r f n).0 ≡ ok b
    → (a : A) × (r ≡ ok a) × ((f a n).0 ≡ ok b)
continue-eq-ok (ok a) f n b h = (a, refl, h)
continue-eq-ok (err e) f n b h = cc

Acquired-IsFree : (sid : ℕ) (q : Result ℕ × Machine) → Acquired q → q.0 ≡ ok sid → IsFree sid q.1
Acquired-IsFree sid (ok x, n) (h, k) e = subst (λ s. IsFree s n) (ok-injective x sid e) k
Acquired-IsFree sid (err x, n) h e = cc

submit_ready-fresh :
    (env : Env) (r : Request) (path : Bytes) (b : Bool) (m : Machine) (sid : ℕ)
    → AreStreams m
    → (submit_ready env r path b m).0 ≡ ok sid
    → uses sid (acquire_sid m).1 ≡ 0
unfolding submit_ready
submit_ready-fresh env r path b m sid h e =
    let (x, ex, e₁) = continue-eq-ok (acquire_sid m).0 _ (acquire_sid m).1 sid e in
    let (y, ey, e₂) =
      continue-eq-ok (send env r x path b (acquire_sid m).1).0 (λ _. pure x)
        (send env r x path b (acquire_sid m).1).1 sid e₁ in
    (Acquired-IsFree sid (acquire_sid m) (acquire_sid-Acquired m h) (ex ∙ e₂)).0

-- The id that `submit` returns was not in flight.
pub submit-unused :
    (env : Env) (r : Request) (path : Bytes) (b : Bool) (m : Machine) (sid : ℕ)
    → AreStreams m
    → (submit env r path b m).0 ≡ ok sid
    → get m.pending sid ≡ none
unfolding submit
submit-unused env r path b m sid h =
    on_ready {R = Result ℕ × Machine} (λ q. q.0 ≡ ok sid → get m.pending sid ≡ none) m.state
      (λ e. get-unused m.pending sid (
        omega (
          arith,
          submit_ready-fresh env r path b m sid h e,
          ap (λ (d : Dict Pending). count sid (keys d)) (acquire_sid-pending m),
        )))
      (λ e. cc)
