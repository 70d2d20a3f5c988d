-- ===== src/Proto/Machine/Login/Streams.antt =====
-- Bring-up does not touch the stream ids.
use py_xroot_dclient.Base.Cases.{on_bool, on_option}
use py_xroot_dclient.Proto.Machine.Exec.{◌>>=◌, emit, lift, modify, write_out}
use py_xroot_dclient.Proto.Machine.Login.Secure.{on_answer}
use py_xroot_dclient.Proto.Responses.Control.{parse_error}
use py_xroot_dclient.Proto.Machine.Secure.{on_tls}
use py_xroot_dclient.Proto.Responses.Bringup.{
  LoginInfo, mechanisms, parse_protocol, parse_bind, parse_login,
}
use py_xroot_dclient.Proto.Machine.Streams.{AreStreams, on_continue}
use py_xroot_dclient.Proto.Frames.{ResponseHeader, encode}
use py_xroot_dclient.Base.{Bytes, List, [], ◌∷◌, ◌||◌, some, is_nil, ◌==◌, true}
use py_xroot_dclient.Errors.{Result}
use py_xroot_dclient.Proto.Machine.State.{
  State, Machine, handshaking, Env, negotiating, Credential, logging_in, binding, authenticating,
  sid_auth, negotiated,
}
use py_xroot_dclient.Proto.Constants.{kxr_authmore, kxr_error, kxr_havetls, kxr_ok}
use py_xroot_dclient.Proto.Machine.Login.{
  begin_login, on_login, by_state, after_protocol, send_auth, bringup, next_credential,
  tls_established, become_ready, rejecting, ladder, auth_step, fail_server, on_protocol, on_bound,
  new_auth, add_name, has_bits, tls_demands,
}

write_frame-AreStreams :
    (r : Result Bytes) (m : Machine)
    → AreStreams m
    → AreStreams ((lift r >>= λ frame. modify (write_out frame)) m).1
write_frame-AreStreams r m h =
    on_continue AreStreams r (λ frame. modify (write_out frame)) m h (λ frame. h)

begin_login-AreStreams : (env : Env) (m : Machine) → AreStreams m → AreStreams (begin_login env m).1
unfolding begin_login
begin_login-AreStreams env m h =
    let sent : Machine = record m { state = logging_in } in
    let bound : Machine = record m { state = binding } in
    on_bool {R = Result Unit × Machine} (λ q. AreStreams q.1) (is_nil m.bind_to)
      (write_frame-AreStreams _ sent h) (write_frame-AreStreams _ bound h)

pub tls_established-AreStreams :
    (env : Env) (m : Machine) → AreStreams m → AreStreams (tls_established env m).1
unfolding tls_established
tls_established-AreStreams env m h =
    on_tls {R = Result Unit × Machine} (λ q. AreStreams q.1) m.state
      (begin_login-AreStreams env (record m { tls_active = true }) h) h

after_protocol-AreStreams :
    (env : Env) (m : Machine) → AreStreams m → AreStreams (after_protocol env m).1
unfolding after_protocol
after_protocol-AreStreams env m h =
    on_bool {R = Result Unit × Machine} (λ q. AreStreams q.1)
      (m.want_tls || has_bits m.protocol_info.flags tls_demands)
      (on_bool {R = Result Unit × Machine} (λ q. AreStreams q.1)
        (has_bits m.protocol_info.flags kxr_havetls) h h)
      (begin_login-AreStreams env m h)

send_auth-AreStreams :
    (name cred : Bytes) (m : Machine) → AreStreams m → AreStreams (send_auth name cred m).1
unfolding send_auth
send_auth-AreStreams name cred m h =
    on_continue AreStreams (new_auth name cred) _ m h
      (λ request. write_frame-AreStreams (encode request sid_auth) m h)

ladder-AreStreams : (cs : List Credential) (m : Machine) → AreStreams m → AreStreams (ladder cs m).1
unfolding ladder
ladder-AreStreams [] m h = h
ladder-AreStreams (c ∷ cs) m h =
    on_option {R = Result Unit × Machine} (λ q. AreStreams q.1) c.initial
      (ladder-AreStreams cs (record m { auth_rejected = add_name c.name m.auth_rejected }) h)
      λ first.
        send_auth-AreStreams c.name first
          (record m { credential = some (c, []); mechanism = c.name; credentials = some cs }) h

next_credential-AreStreams :
    (env : Env) (sec : Bytes) (m : Machine)
    → AreStreams m
    → AreStreams (next_credential env sec m).1
unfolding next_credential
next_credential-AreStreams env sec m h =
    on_option {R = Result Unit × Machine} (λ q. AreStreams q.1) m.credentials
      (ladder-AreStreams (env.select sec) m h) (λ cs. ladder-AreStreams cs m h)

rejecting-AreStreams :
    (env : Env) (name : Bytes) (m : Machine) → AreStreams m → AreStreams (rejecting env name m).1
unfolding rejecting
rejecting-AreStreams env name m h =
    next_credential-AreStreams env [] (record m { auth_rejected = add_name name m.auth_rejected }) h

auth_step-AreStreams :
    (env : Env) (challenge : Bytes) (m : Machine)
    → AreStreams m
    → AreStreams (auth_step env challenge m).1
unfolding auth_step
auth_step-AreStreams env challenge m h =
    on_option {R = Result Unit × Machine} (λ q. AreStreams q.1) m.credential h
      λ (c, seen).
        let n : Machine = record m { credential = some (c, challenge ∷ seen) } in
        on_answer {R = Result Unit × Machine} (λ q. AreStreams q.1) (c.step (challenge ∷ seen))
          (λ next. send_auth-AreStreams c.name next n h) (rejecting-AreStreams env c.name n h)
          (rejecting-AreStreams env c.name n h)

become_ready-AreStreams : (m : Machine) → AreStreams m → AreStreams (become_ready m)
unfolding become_ready
become_ready-AreStreams m h = h

on_login-AreStreams :
    (env : Env) (info : LoginInfo) (m : Machine) → AreStreams m → AreStreams (on_login env info m).1
unfolding on_login
on_login-AreStreams env info m h =
    let n : Machine = record m { session_id = info.sessid; offered = mechanisms info } in
    on_bool {R = Result Unit × Machine} (λ q. AreStreams q.1) (is_nil info.sec)
      (become_ready-AreStreams n h)
      (next_credential-AreStreams env info.sec (record n { state = authenticating }) h)

on_step :
    {R : Type 0} (P : R → Type 0) (s : State) {a b c d e : R}
    → P a
    → P b
    → P c
    → P d
    → P e
    → P (elim s [ handshaking ↦ a | negotiating ↦ b | binding ↦ c | logging_in ↦ d | _ ↦ e ])
on_step P handshaking a b c d e = a
on_step P negotiating a b c d e = b
on_step P binding a b c d e = c
on_step P logging_in a b c d e = d
on_step P _ a b c d e = e

by_state-AreStreams :
    (env : Env) (header : ResponseHeader) (body : Bytes) (m : Machine)
    → AreStreams m
    → AreStreams (by_state env header body m).1
unfolding by_state on_protocol on_bound
by_state-AreStreams env header body m h =
    on_step {R = Result Unit × Machine} (λ q. AreStreams q.1) m.state h
      (on_continue AreStreams (parse_protocol body) (on_protocol env) m h (λ info.
        after_protocol-AreStreams env (emit (negotiated info) (record m { protocol_info = info }))
          h))
      (on_continue AreStreams (parse_bind body) on_bound m h
        (λ p. become_ready-AreStreams (record m { pathid = p }) h))
      (on_continue AreStreams (parse_login body) (on_login env) m h
        (λ info. on_login-AreStreams env info m h))
      (on_bool {R = Result Unit × Machine} (λ q. AreStreams q.1) (header.status == kxr_authmore)
        (auth_step-AreStreams env body m h) (become_ready-AreStreams m h))

pub bringup-AreStreams :
    (env : Env) (header : ResponseHeader) (body : Bytes) (m : Machine)
    → AreStreams m
    → AreStreams (bringup env header body m).1
unfolding bringup fail_server
bringup-AreStreams env header body m h =
    on_bool {R = Result Unit × Machine} (λ q. AreStreams q.1) (header.status == kxr_error)
      (on_continue AreStreams (parse_error body) fail_server m h (λ info. h))
      (on_bool {R = Result Unit × Machine} (λ q. AreStreams q.1)
        (header.status == kxr_ok || header.status == kxr_authmore)
        (by_state-AreStreams env header body m h) h)
