-- ===== src/Proto/Machine/Outbound/Streams.antt =====
-- Acquiring, sending and releasing keep the stream ids apart.
use py_xroot_dclient.Base.Cases.{on_bool, on_option, on_some}
use py_xroot_dclient.Crypto.Sigver.{sign}
use py_xroot_dclient.Proto.Frames.{encode, handshake}
use py_xroot_dclient.Proto.Machine.Secure.{on_fresh, on_ready}
use py_xroot_dclient.Proto.Constants.{kxr_sha256_sig}
use py_xroot_dclient.Proto.Machine.Exec.{write_path, M, continue, pure, write_out}
use py_xroot_dclient.Proto.Machine.Outbound
use py_xroot_dclient.Base.Dict.{get, count-remove, get-none-count, get-count}
use py_xroot_dclient.Proto.Machine.Streams.{
  InRange, AreStreams, Acquired, IsFree, on_items, put-AreStreams, on_continue,
}
use py_xroot_dclient.Proto.Requests.{
  Request, pathid, protocol, end_session, sigver, path_data, opcode,
}
use py_xroot_dclient.Errors.{Result, ok, err}
use py_xroot_dclient.Base.{
  ℕ, List, count, Bytes, arith, ◌∷◌, ◌≡◌, [], if◌then◌else◌, ◌==◌, none, ap, ◌∙◌, suc, Option, Bool,
  some, ◌&&◌, is_nil, not, ◌++◌, false,
}
use py_xroot_dclient.Proto.Machine.State.{Machine, Env, sid_protocol}
use py_xroot_dclient.Proto.Machine.Outbound.{
  release, next_after, enqueue, acquire_sid, greet, send, sign_frame, end_session_frame, prefix,
  submit_ready, resume, finish_close, route, submit, start,
}

next_after-InRange : (sid : ℕ) → InRange sid → InRange (next_after sid)
next_after-InRange sid h = ground arith

count-cons :
    (s x : ℕ) (xs : List ℕ) → count s (x ∷ xs) ≡ (if s == x then suc (count s xs) else count s xs)
count-cons s x xs = ground arith

pop-Acquired :
    (x : ℕ) (xs : List ℕ) (m : Machine)
    → AreStreams m
    → m.free ≡ x ∷ xs
    → Acquired (ok x, record m { free = xs })
pop-Acquired x xs m (once, range, next) e =
    let at = λ (s : ℕ). ap (count s) e ∙ count-cons s x xs in
    (
      ((λ s. ground (arith, once s, at s)), (λ s h. range s (ground (arith, h, at s))), next),
      (ground (arith, once x, at x), range x (ground (arith, at x))),
    )

counter-Acquired :
    (m : Machine)
    → AreStreams m
    → m.free ≡ []
    → get m.pending m.next_sid ≡ none
    → Acquired (ok m.next_sid, record m { next_sid = next_after m.next_sid })
counter-Acquired m (once, range, next) e q = (
  (once, range, next_after-InRange m.next_sid next),
  (omega (arith, get-none-count m.pending m.next_sid q, ap (count m.next_sid) e), next),
)

pub acquire_sid-Acquired : (m : Machine) → AreStreams m → Acquired (acquire_sid m)
unfolding acquire_sid
acquire_sid-Acquired m (once, range, next) =
    on_items {R = Result ℕ × Machine} Acquired m.free
      (λ e.
        on_some {R = Result ℕ × Machine} Acquired (get m.pending m.next_sid)
          (counter-Acquired m (once, range, next) e)
          (λ p q. (once, range, next_after-InRange m.next_sid next)))
      (λ x xs e. pop-Acquired x xs m (once, range, next) e)

pub release-AreStreams : (sid : ℕ) (m : Machine) → AreStreams m → AreStreams (release sid m)
unfolding release
release-AreStreams sid m (once, range, next) =
    on_some AreStreams (get m.pending sid) (λ q. (once, range, next))
      λ p q. (
        (λ s. ground (
          arith,
          once s,
          count-remove m.pending sid s,
          get-count m.pending sid p q,
          count-cons s sid m.free,
        )),
        (λ s h. range s (
            ground (
              arith,
              h,
              count-remove m.pending sid s,
              get-count m.pending sid p q,
              count-cons s sid m.free,
            ))),
        next,
      )

enqueue-AreStreams :
    (r : Request) (sid : ℕ) (frame path : Bytes) (m : Machine)
    → AreStreams m
    → IsFree sid m
    → AreStreams (enqueue r sid frame path m)
unfolding enqueue
enqueue-AreStreams r sid frame path m = put-AreStreams _ sid m

-- A part of a method that writes neither the streams nor the counter.
abbrev Quiet : {A : Type 0} → M A → Type 0
Quiet c =
    (sid : ℕ) (m : Machine) → AreStreams m → IsFree sid m → AreStreams (c m).1 × IsFree sid (c m).1

prefix-Quiet :
    (r : Request) (sid : ℕ) (frame : Bytes) (o : Option (ℕ × Bytes)) → Quiet (prefix r sid frame o)
unfolding prefix
prefix-Quiet r sid frame none s m h k = (h, k)
prefix-Quiet r sid frame (some (seqno, mac)) s m h k =
    on_continue (λ n. AreStreams n × IsFree s n)
      (encode (sigver (opcode r) seqno mac kxr_sha256_sig false) sid) (λ sig. pure (sig ++ frame)) m
      (h, k) (λ sig. (h, k))

sign_frame-Quiet :
    (env : Env) (r : Request) (sid : ℕ) (frame : Bytes) → Quiet (sign_frame env r sid frame)
unfolding sign_frame
sign_frame-Quiet env r sid frame x m h k =
    on_option {R = Result Bytes × Machine} (λ q. AreStreams q.1 × IsFree x q.1) m.signer (h, k)
      λ s.
        let n : Machine = record m { signer = some (sign env.hmac frame s).1 } in
        on_continue (λ j. AreStreams j × IsFree x j) (sign env.hmac frame s).0 (prefix r sid frame)
          n (h, k) (λ o. prefix-Quiet r sid frame o x n h k)

write_path-AreStreams :
    (p : ℕ) (bs : Bytes) (m : Machine) → AreStreams m → AreStreams (write_path p bs m)
unfolding write_path
write_path-AreStreams p bs m h = h

route-AreStreams :
    (r : Request) (frame : Bytes) (b : Bool) (m : Machine)
    → AreStreams m
    → AreStreams (route r frame b m)
unfolding route
route-AreStreams r frame b m h =
    let on_link = write_path-AreStreams (pathid r) (path_data r) (write_out frame m) h in
    let first = write_path-AreStreams (pathid r) frame m h in
    on_bool AreStreams (b && not (pathid r == 0))
      (on_bool AreStreams (is_nil (path_data r)) first
        (write_path-AreStreams (pathid r) (path_data r) (write_path (pathid r) frame m) first))
      (on_bool AreStreams (is_nil (path_data r)) h on_link)

send-AreStreams :
    (env : Env) (r : Request) (sid : ℕ) (path : Bytes) (b : Bool) (m : Machine)
    → AreStreams m
    → IsFree sid m
    → AreStreams (send env r sid path b m).1
unfolding send
send-AreStreams env r sid path b m h k = on_continue AreStreams (encode r sid) _ m h λ frame.
    let (h', k') = sign_frame-Quiet env r sid frame sid m h k in
    on_continue AreStreams (sign_frame env r sid frame m).0 _ (sign_frame env r sid frame m).1 h'
      λ signed.
        route-AreStreams r signed b (enqueue r sid signed path (sign_frame env r sid frame m).1)
          (enqueue-AreStreams r sid signed path (sign_frame env r sid frame m).1 h' k')

-- What follows an acquisition.
with_sid :
    {A : Type 0} (q : Result ℕ × Machine) (f : ℕ → M A)
    → Acquired q
    → ((sid : ℕ) (n : Machine) → AreStreams n → IsFree sid n → AreStreams (f sid n).1)
    → AreStreams (continue q.0 f q.1).1
with_sid (ok sid, n) f (h, k) step = step sid n h k
with_sid (err e, n) f h step = h

submit_ready-AreStreams :
    (env : Env) (r : Request) (path : Bytes) (b : Bool) (m : Machine)
    → AreStreams m
    → AreStreams (submit_ready env r path b m).1
unfolding submit_ready
submit_ready-AreStreams env r path b m h =
    with_sid (acquire_sid m) _ (acquire_sid-Acquired m h) λ sid n hn k.
      on_continue AreStreams (send env r sid path b n).0 (λ _. pure sid) (send env r sid path b n).1
        (send-AreStreams env r sid path b n hn k) (λ x. send-AreStreams env r sid path b n hn k)

pub submit-AreStreams :
    (env : Env) (r : Request) (path : Bytes) (b : Bool) (m : Machine)
    → AreStreams m
    → AreStreams (submit env r path b m).1
unfolding submit
submit-AreStreams env r path b m h =
    on_ready {R = Result ℕ × Machine} (λ q. AreStreams q.1) m.state
      (submit_ready-AreStreams env r path b m h) h

greet-AreStreams : (flags : ℕ) (m : Machine) → AreStreams m → AreStreams (greet flags m).1
unfolding greet
greet-AreStreams flags m h =
    on_continue AreStreams (encode (protocol flags) sid_protocol) _
      (record m { out = m.out ++ handshake }) h (λ frame. h)

pub start-AreStreams : (m : Machine) → AreStreams m → AreStreams (start m).1
unfolding start
start-AreStreams m h =
    on_fresh {R = Result Unit × Machine} (λ q. AreStreams q.1) m.state (λ _. greet-AreStreams _ m h)
      h

pub resume-AreStreams : (sid : ℕ) (m : Machine) → AreStreams m → AreStreams (resume sid m).1
unfolding resume
resume-AreStreams sid m h =
    on_option {R = Result Unit × Machine} (λ q. AreStreams q.1) (get m.pending sid) h
      λ p.
        on_bool AreStreams (is_nil p.path_bytes) h
          (write_path-AreStreams p.pathid p.path_bytes (write_out p.frame m) h)

end_session_frame-AreStreams : (m : Machine) → AreStreams m → AreStreams (end_session_frame m).1
unfolding end_session_frame
end_session_frame-AreStreams m h =
    with_sid (acquire_sid m) _ (acquire_sid-Acquired m h) λ sid n hn k.
      on_continue AreStreams (encode (end_session m.session_id) sid) _ n hn (λ frame. hn)

pub close-AreStreams :
    (graceful : Bool) (m : Machine) → AreStreams m → AreStreams (Outbound.close graceful m).1
unfolding Outbound.close finish_close
close-AreStreams graceful m h =
    let sent = end_session_frame-AreStreams m h in
    on_ready {R = Result Unit × Machine} (λ q. AreStreams q.1) m.state
      (on_bool {R = Result Unit × Machine} (λ q. AreStreams q.1)
        (graceful && not (is_nil m.session_id))
        (on_continue AreStreams (end_session_frame m).0 (λ _. finish_close) (end_session_frame m).1
          sent (λ x. sent))
        h)
      h
