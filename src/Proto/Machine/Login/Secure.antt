-- ===== src/Proto/Machine/Login/Secure.antt =====
-- Bring-up lets no login out before TLS, where TLS is wanted or demanded.
use py_xroot_dclient.Base.Cases.{on_bool, on_option, on_test}
use py_xroot_dclient.Proto.Responses.Control.{ErrorInfo, parse_error}
use py_xroot_dclient.Proto.Responses.Bringup.{
  ProtocolInfo, LoginInfo, mechanisms, parse_protocol, parse_bind, parse_login,
}
use py_xroot_dclient.Proto.Machine.Answers.{in_bringup}
use py_xroot_dclient.Proto.Frames.{encode, ResponseHeader}
use py_xroot_dclient.Proto.Machine.Outbound.Secure.{lift-Keeps, write_frame-Keeps}
use py_xroot_dclient.Proto.Machine.Exec.{lift, emit}
use py_xroot_dclient.Errors.{
  Error, Result, authentication_error, no_mechanism, server_error, generic, protocol_error,
}
use py_xroot_dclient.Base.{List, Bytes, some, true, refl, is_nil, [], ◌∷◌, sym, ◌≡◌, ℕ, ◌==◌, ◌||◌}
use py_xroot_dclient.Proto.Constants.{kxr_havetls, kxr_error, kxr_authmore, kxr_ok}
use py_xroot_dclient.Proto.Machine.Secure.{
  past_login, before_login, needs_tls, Keeps, Keeps-bind, Follows, Same, IsSecure, Follows-trans,
  Follows-ends, Follows-fields, on_tls, Same-trans, needs_tls-Same, IsSecure-continue, Follows-late,
  Follows-IsSecure,
}
use py_xroot_dclient.Proto.Machine.Login.{
  rejecting, next_credential, send_auth, auth_step, begin_login, tls_established, after_protocol,
  ladder, add_name, fail_with, new_auth, has_bits, on_login, fail_server, by_state, bringup,
  become_ready, on_protocol, on_bound,
}
use py_xroot_dclient.Proto.Machine.State.{
  Answer, Env, Machine, blob, Credential, nothing, logging_in, raised, binding, sid_auth, State,
  handshaking, authenticating, negotiating, negotiated,
}

pub fail_with-Follows : (e : Error) (m : Machine) → Follows m (fail_with e m)
unfolding past_login before_login
fail_with-Follows e m = Follows-ends m _ refl refl refl refl (λ h. cc)

pub begin_login-Same : (env : Env) (m : Machine) → Same m (begin_login env m).1
unfolding begin_login
begin_login-Same env m =
    let sent : Machine = record m { state = logging_in } in
    let bound : Machine = record m { state = binding } in
    on_bool {R = Result Unit × Machine} (λ q. Same m q.1) (is_nil m.bind_to)
      (Same-trans m sent _ (record { wants = refl; told = refl; active = refl })
        (write_frame-Keeps _ sent).same)
      (Same-trans m bound _ (record { wants = refl; told = refl; active = refl })
        (write_frame-Keeps _ bound).same)

pub tls_established-IsSecure :
    (env : Env) (m : Machine) → IsSecure m → IsSecure (tls_established env m).1
unfolding tls_established
tls_established-IsSecure env m h =
    let n : Machine = record m { tls_active = true } in
    on_tls {R = Result Unit × Machine} (λ q. IsSecure q.1) m.state
      (λ need p. (begin_login-Same env n).active) h

after_protocol-IsSecure : (env : Env) (m : Machine) → IsSecure (after_protocol env m).1
unfolding after_protocol needs_tls past_login
after_protocol-IsSecure env m =
    on_test {R = Result Unit × Machine} (λ q. IsSecure q.1) (needs_tls m)
      (λ _.
        on_bool {R = Result Unit × Machine} (λ q. IsSecure q.1)
          (has_bits m.protocol_info.flags kxr_havetls) (λ need p. cc) (λ need p. cc))
      (λ e need p. cc (sym e, needs_tls-Same m _ (begin_login-Same env m), need))

send_auth-Keeps : (name cred : Bytes) → Keeps (send_auth name cred)
unfolding send_auth
send_auth-Keeps name cred =
    Keeps-bind (lift (new_auth name cred)) _ (lift-Keeps (new_auth name cred))
      (λ request. write_frame-Keeps (encode request sid_auth))

ladder-Keeps : (cs : List Credential) → Keeps (ladder cs)
unfolding ladder
ladder-Keeps [] m =
    let n : Machine = record m { credentials = some [] } in
    Follows-trans m n _ (Follows-fields m n refl refl refl refl)
      (fail_with-Follows (no_mechanism m.offered m.auth_rejected) n)
ladder-Keeps (c ∷ cs) m =
    let skipped : Machine = record m { auth_rejected = add_name c.name m.auth_rejected } in
    on_option {R = Result Unit × Machine} (λ q. Follows m q.1) c.initial
      (Follows-trans m skipped _ (Follows-fields m skipped refl refl refl refl)
        (ladder-Keeps cs skipped))
      λ first.
        let taken : Machine = record m {
          credential = some (c, []);
          mechanism = c.name;
          credentials = some cs;
        } in
        Follows-trans m taken _ (Follows-fields m taken refl refl refl refl)
          (send_auth-Keeps c.name first taken)

next_credential-Keeps : (env : Env) (sec : Bytes) → Keeps (next_credential env sec)
unfolding next_credential
next_credential-Keeps env sec m =
    on_option {R = Result Unit × Machine} (λ q. Follows m q.1) m.credentials
      (ladder-Keeps (env.select sec) m) (λ cs. ladder-Keeps cs m)

rejecting-Follows :
    (env : Env) (name : Bytes) (m n : Machine) → Follows m n → Follows m (rejecting env name n).1
unfolding rejecting
rejecting-Follows env name m n f =
    let k : Machine = record n { auth_rejected = add_name name n.auth_rejected } in
    Follows-trans m n _ f (
      Follows-trans n k _ (Follows-fields n k refl refl refl refl) (next_credential-Keeps env [] k))

pub on_answer :
    {R : Type 0} (P : R → Type 0) (a : Answer) {f : Bytes → R} {b c : R}
    → ((next : Bytes) → P (f next))
    → P b
    → P c
    → P (elim a [ blob next ↦ f next | nothing ↦ b | raised ↦ c ])
on_answer P (blob next) h k l = h next
on_answer P nothing h k l = k
on_answer P raised h k l = l

pub auth_step-Keeps : (env : Env) (challenge : Bytes) → Keeps (auth_step env challenge)
unfolding auth_step
auth_step-Keeps env challenge m =
    on_option {R = Result Unit × Machine} (λ q. Follows m q.1) m.credential
      (fail_with-Follows authentication_error m)
      λ (c, seen).
        let n : Machine = record m { credential = some (c, challenge ∷ seen) } in
        let f = Follows-fields m n refl refl refl refl in
        on_answer {R = Result Unit × Machine} (λ q. Follows m q.1) (c.step (challenge ∷ seen))
          (λ next. Follows-trans m n _ f (send_auth-Keeps c.name next n))
          (rejecting-Follows env c.name m n f) (rejecting-Follows env c.name m n f)

pub become_ready-Follows : (m : Machine) → past_login m.state ≡ true → Follows m (become_ready m)
unfolding become_ready before_login
become_ready-Follows m =
    Follows-late m _ (record { wants = refl; told = refl; active = refl }) (λ h. cc)

pub on_login-Follows :
    (env : Env) (info : LoginInfo) (m : Machine)
    → past_login m.state ≡ true
    → Follows m (on_login env info m).1
unfolding on_login before_login
on_login-Follows env info m p =
    let n : Machine = record m { session_id = info.sessid; offered = mechanisms info } in
    let k : Machine = record n { state = authenticating } in
    on_bool {R = Result Unit × Machine} (λ q. Follows m q.1) (is_nil info.sec)
      (Follows-trans m n _ (Follows-fields m n refl refl refl refl) (become_ready-Follows n p))
      (Follows-late m _
        (Same-trans m k _ (record { wants = refl; told = refl; active = refl })
          (next_credential-Keeps env info.sec k).same)
        (λ h. let never = (next_credential-Keeps env info.sec k).early h in absurd (cc)) p)

pub on_bound-Follows :
    (p : ℕ) (m : Machine) → past_login m.state ≡ true → Follows m (on_bound p m).1
unfolding on_bound
on_bound-Follows p m h =
    let n : Machine = record m { pathid = p } in
    Follows-trans m n _ (Follows-fields m n refl refl refl refl) (become_ready-Follows n h)

on_protocol-IsSecure :
    (env : Env) (info : ProtocolInfo) (m : Machine) → IsSecure (on_protocol env info m).1
unfolding on_protocol
on_protocol-IsSecure env info m =
    after_protocol-IsSecure env (emit (negotiated info) (record m { protocol_info = info }))

on_bringup :
    {R : Type 0} (P : R → Type 0) (s : State) {a b c d e : R}
    → in_bringup s ≡ true
    → P a
    → P b
    → (past_login s ≡ true → P c)
    → (past_login s ≡ true → P d)
    → (past_login s ≡ true → P e)
    → P (elim s [ handshaking ↦ a | negotiating ↦ b | binding ↦ c | logging_in ↦ d | _ ↦ e ])
unfolding in_bringup past_login
on_bringup P handshaking h a b c d e = a
on_bringup P negotiating h a b c d e = b
on_bringup P binding h a b c d e = c refl
on_bringup P logging_in h a b c d e = d refl
on_bringup P authenticating h a b c d e = e refl
on_bringup P _ h a b c d e = cc

by_state-IsSecure :
    (env : Env) (header : ResponseHeader) (body : Bytes) (m : Machine)
    → IsSecure m
    → in_bringup m.state ≡ true
    → IsSecure (by_state env header body m).1
unfolding by_state past_login
by_state-IsSecure env header body m h busy =
    on_bringup {R = Result Unit × Machine} (λ q. IsSecure q.1) m.state busy (λ need p. cc)
      (IsSecure-continue (parse_protocol body) (on_protocol env) m h
        (λ info. on_protocol-IsSecure env info m))
      (λ p.
        IsSecure-continue (parse_bind body) on_bound m h
          (λ path. Follows-IsSecure m _ (on_bound-Follows path m p) h))
      (λ p.
        IsSecure-continue (parse_login body) (on_login env) m h
          (λ info. Follows-IsSecure m _ (on_login-Follows env info m p) h))
      (λ p.
        on_bool {R = Result Unit × Machine} (λ q. IsSecure q.1) (header.status == kxr_authmore)
          (Follows-IsSecure m _ (auth_step-Keeps env body m) h)
          (Follows-IsSecure m _ (become_ready-Follows m p) h))

fail_server-Keeps : (info : ErrorInfo) → Keeps (fail_server info)
unfolding fail_server
fail_server-Keeps info = fail_with-Follows (server_error generic info.code info.message [])

pub bringup-IsSecure :
    (env : Env) (header : ResponseHeader) (body : Bytes) (m : Machine)
    → IsSecure m
    → in_bringup m.state ≡ true
    → IsSecure (bringup env header body m).1
unfolding bringup
bringup-IsSecure env header body m h busy =
    on_bool {R = Result Unit × Machine} (λ q. IsSecure q.1) (header.status == kxr_error)
      (IsSecure-continue (parse_error body) fail_server m h
        (λ info. Follows-IsSecure m _ (fail_server-Keeps info m) h))
      (on_bool {R = Result Unit × Machine} (λ q. IsSecure q.1)
        (header.status == kxr_ok || header.status == kxr_authmore)
        (by_state-IsSecure env header body m h busy)
        (Follows-IsSecure m _ (fail_with-Follows protocol_error m) h))
