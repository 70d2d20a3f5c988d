-- ===== src/Proto/Machine/Reach.antt =====
-- The sessions that a driver can bring about: calls of the public methods of `SessionMachine` in
-- any order, raising or not, from a new one on.
use py_xroot_dclient.Proto.Machine.Login.Quiet.{tls_established-IsSilent}
use py_xroot_dclient.Proto.Machine.Framing.Quiet.{forget_path-IsSilent, receive_data-IsSilent}
use Prim.Native.Nat.{bit_and}
use py_xroot_dclient.Proto.Machine.Outbound.Quiet.{
  start-IsSilent, drained-IsSilent, submit-IsSilent, resume-IsSilent, release-IsSilent,
  close-IsSilent,
}
use py_xroot_dclient.Proto.Machine.Quiet.{
  IsSilent, nothing_said, Follows-IsSilent, IsQuiet-fields, IsGreeting, on_none, IsQuiet, get-empty,
}
use py_xroot_dclient.Base.Cases.{on_option}
use py_xroot_dclient.Proto.Machine.Outbound.Submitted.{InFlight, submit-unused, submit-InFlight}
use py_xroot_dclient.Errors.{ok}
use py_xroot_dclient.Proto.Machine.Login.Streams.{tls_established-AreStreams}
use py_xroot_dclient.Proto.Machine.Framing.Streams.{forget_path-AreStreams, receive_data-AreStreams}
use py_xroot_dclient.Proto.Machine.Outbound.Streams.{
  start-AreStreams, submit-AreStreams, resume-AreStreams, release-AreStreams, close-AreStreams,
}
use py_xroot_dclient.Proto.Machine.Streams.{AreStreams}
use py_xroot_dclient.Proto.Machine.Login.{tls_established}
use py_xroot_dclient.Proto.Machine.Framing.{forget_path, receive_data}
use py_xroot_dclient.Base.Dict.{get, keys, get-count}
use py_xroot_dclient.Proto.Machine.Secure.{
  past_login, Follows, on_list, Follows-fields, Follows-refl, needs_tls,
}
use py_xroot_dclient.Base.{
  ℕ, Bytes, Bool, Option, List, refl, ◌≡◌, true, count, some, arith, ◌+◌, ◌≤◌, none, ◌||◌, not,
  ◌==◌, false, [], inl,
}
use py_xroot_dclient.Proto.Machine.State.{
  new_machine, Env, Machine, Event, Credential, Pending, first_sid,
}
use py_xroot_dclient.Proto.Requests.{Request}
use py_xroot_dclient.Proto.Machine.Outbound.{
  data_to_send, next_event, path_data_to_send, all_events, start, submit, resume, release,
}
use py_xroot_dclient.Proto.Machine.Outbound

pub data Call : Type 0 where
  call_start call_data_to_send call_next_event call_events : Call
  call_submit : Request → Bytes → Bool → Call
  call_resume call_release call_path_data_to_send call_forget_path : ℕ → Call
  call_close : Bool → Call
  call_tls_established : Call
  call_receive_data : Bytes → ℕ → Call

-- The machine after a call.
unfoldable pub perform : Env → Call → Machine → Machine
perform env call_start m = (start m).1
perform env call_data_to_send m = (data_to_send m).1
perform env call_next_event m = (next_event m).1
perform env call_events m = (all_events m).1
perform env (call_submit r path b) m = (submit env r path b m).1
perform env (call_resume sid) m = (resume sid m).1
perform env (call_release sid) m = release sid m
perform env (call_path_data_to_send p) m = (path_data_to_send p m).1
perform env (call_forget_path p) m = forget_path p m
perform env (call_close graceful) m = (Outbound.close graceful m).1
perform env call_tls_established m = (tls_established env m).1
perform env (call_receive_data bs p) m = (receive_data env bs p m).1

pub data Reachable (env : Env) : Machine → Type 0 where
  created :
      (username : Bytes) (want_tls : Bool) (bind_to : Bytes)
      (credentials : Option (List Credential))
      → Reachable env (new_machine username want_tls bind_to credentials)
  called : {m : Machine} → Reachable env m → (c : Call) → Reachable env (perform env c m)

pub path_data_to_send-Follows : (p : ℕ) (m : Machine) → Follows m (path_data_to_send p m).1
unfolding path_data_to_send
path_data_to_send-Follows p m =
    on_option {R = Bytes × Machine} (λ q. Follows m q.1) (get m.out_path p) (Follows-refl m)
      (λ queued. Follows-fields m _ refl refl refl refl)

pub next_event-Follows : (m : Machine) → Follows m (next_event m).1
unfolding next_event
next_event-Follows m =
    on_list {R = Option Event × Machine} (λ q. Follows m q.1) m.events (Follows-refl m)
      (λ e later. Follows-fields m _ refl refl refl refl)

perform-AreStreams :
    (env : Env) (c : Call) (m : Machine) → AreStreams m → AreStreams (perform env c m)
unfolding perform data_to_send all_events next_event path_data_to_send
perform-AreStreams env call_start m h = start-AreStreams m h
perform-AreStreams env call_data_to_send m h = h
perform-AreStreams env call_next_event m h =
    on_list {R = Option Event × Machine} (λ q. AreStreams q.1) m.events h (λ e later. h)
perform-AreStreams env call_events m h = h
perform-AreStreams env (call_submit r path b) m h = submit-AreStreams env r path b m h
perform-AreStreams env (call_resume sid) m h = resume-AreStreams sid m h
perform-AreStreams env (call_release sid) m h = release-AreStreams sid m h
perform-AreStreams env (call_path_data_to_send p) m h =
    on_option {R = Bytes × Machine} (λ q. AreStreams q.1) (get m.out_path p) h (λ queued. h)
perform-AreStreams env (call_forget_path p) m h = forget_path-AreStreams p m h
perform-AreStreams env (call_close graceful) m h = close-AreStreams graceful m h
perform-AreStreams env call_tls_established m h = tls_established-AreStreams env m h
perform-AreStreams env (call_receive_data bs p) m h = receive_data-AreStreams env bs p m h

new_machine-AreStreams :
    (u : Bytes) (w : Bool) (b : Bytes) (c : Option (List Credential))
    → AreStreams (new_machine u w b c)
unfolding new_machine
new_machine-AreStreams u w b c =
    ((λ s. omega arith), (λ s h. absurd (omega (arith, h))), omega arith)

Reachable-AreStreams : {env : Env} {m : Machine} → Reachable env m → AreStreams m
Reachable-AreStreams (created u w b c) = new_machine-AreStreams u w b c
Reachable-AreStreams {env} (called {m} r c) = perform-AreStreams env c m (Reachable-AreStreams r)

-- In every session that a driver can bring about, a stream id is at most once in flight or free,
-- and not both.
pub streams_apart :
    {env : Env} {m : Machine}
    → Reachable env m
    → (s : ℕ) → count s (keys m.pending) + count s m.free ≤ 1
streams_apart r = (Reachable-AreStreams r).0

-- In every session that a driver can bring about, the id of a stream in flight is one of 4 to
-- 65535: no id of the bring-up, and it fits the 16 bits of a frame.
pub stream_in_range :
    {env : Env} {m : Machine}
    → Reachable env m
    → (sid : ℕ) (p : Pending) → get m.pending sid ≡ some p
    → (first_sid ≤ sid) × (sid ≤ 0xffff)
stream_in_range {m = m} r sid p e =
    (Reachable-AreStreams r).1 sid (omega (arith, get-count m.pending sid p e))

perform-IsSilent : (env : Env) (c : Call) (m : Machine) → IsSilent m → IsSilent (perform env c m)
unfolding perform data_to_send all_events next_event path_data_to_send
perform-IsSilent env call_start m h = start-IsSilent m h
perform-IsSilent env call_data_to_send m h = drained-IsSilent m h
perform-IsSilent env call_next_event m h =
    on_list {R = Option Event × Machine} (λ q. IsSilent q.1) m.events h
      (λ e later.
        Follows-IsSilent m _ (Follows-fields m _ refl refl refl refl)
          (λ q. IsQuiet-fields m _ q.not_yet refl refl refl q) h)
perform-IsSilent env call_events m h =
    Follows-IsSilent m _ (Follows-fields m _ refl refl refl refl)
      (λ q. IsQuiet-fields m _ q.not_yet refl refl refl q) h
perform-IsSilent env (call_submit r path b) m h = submit-IsSilent env r path b m h
perform-IsSilent env (call_resume sid) m h = resume-IsSilent sid m h
perform-IsSilent env (call_release sid) m h = release-IsSilent sid m h
perform-IsSilent env (call_path_data_to_send p) m h =
    Follows-IsSilent m _ (path_data_to_send-Follows p m)
      (λ q.
        on_none {R = Bytes × Machine} (λ x. IsQuiet x.1) (get m.out_path p) _
          (get-empty m.out_path p q.beside) q)
      h
perform-IsSilent env (call_forget_path p) m h = forget_path-IsSilent p m h
perform-IsSilent env (call_close graceful) m h = close-IsSilent graceful m h
perform-IsSilent env call_tls_established m h = tls_established-IsSilent env m h
perform-IsSilent env (call_receive_data bs p) m h = receive_data-IsSilent env bs p m h

Reachable-IsSilent : {env : Env} {m : Machine} → Reachable env m → IsSilent m
unfolding new_machine past_login
Reachable-IsSilent (created u w b c) =
    λ inactive why. record { not_yet = refl; said = nothing_said; beside = refl; waits = refl }
Reachable-IsSilent {env} (called {m} r c) = perform-IsSilent env c m (Reachable-IsSilent r)

-- However a driver uses a session and whatever the server sends, in every state, those of an end
-- included: where the client wants TLS, or the server's kXR_protocol answer demands it by one of
-- the bits of kXR_gotoTLS, kXR_tlsLogin, kXR_tlsSess and kXR_tlsData, and TLS is not active, what
-- there is to send is handshakes and kXR_protocol requests and no other byte, on no link, no request
-- waits, and no login or binding is under way.
pub tls_before_login :
    {env : Env} {m : Machine}
    → Reachable env m
    → (m.want_tls || not (bit_and m.protocol_info.flags 0x4d000000 == 0)) ≡ true
    → m.tls_active ≡ false
    → IsGreeting m.out × (m.out_path ≡ []) × (m.pending ≡ []) × (past_login m.state ≡ false)
unfolding needs_tls
tls_before_login reached need inactive =
    let q = Reachable-IsSilent reached inactive (inl need) in (q.said, q.beside, q.waits, q.not_yet)

-- Where `submit` returns an id, in a session that a driver can bring about, no stream was in
-- flight under this id before, and afterwards the request is.
pub submit_fresh :
    {env : Env} {m : Machine}
    → Reachable env m
    → (r : Request) (path : Bytes) (b : Bool) (sid : ℕ) → (submit env r path b m).0 ≡ ok sid
    → (get m.pending sid ≡ none) × InFlight r sid (submit env r path b m).1
submit_fresh {env} {m} reached r path b sid e = (
  submit-unused env r path b m sid (Reachable-AreStreams reached) e,
  submit-InFlight env r path b m sid e,
)
