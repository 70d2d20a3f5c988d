-- ===== src/Proto/Machine/Login/Quiet.antt =====
-- Bring-up sends no login before TLS, where TLS is needed.
use py_xroot_dclient.Proto.Machine.Exec.{emit}
use py_xroot_dclient.Proto.Machine.Outbound.Secure.{write_frame-Keeps}
use py_xroot_dclient.Proto.Responses.Bringup.{parse_protocol, parse_bind, parse_login}
use py_xroot_dclient.Proto.Responses.Control.{parse_error}
use py_xroot_dclient.Proto.Machine.Login.Secure.{
  fail_with-Follows, begin_login-Same, on_bound-Follows, on_login-Follows, auth_step-Keeps,
  become_ready-Follows,
}
use py_xroot_dclient.Base.Cases.{on_bool, on_test}
use py_xroot_dclient.Proto.Frames.{ResponseHeader}
use py_xroot_dclient.Proto.Machine.Quiet.{
  IsSilent, IsQuiet, IsQuiet-fields, Follows-IsSilent, IsSilent-continue, late-IsSilent,
}
use py_xroot_dclient.Proto.Machine.State.{
  State, Env, Machine, handshaking, logging_in, binding, negotiating, authenticating, negotiated,
}
use py_xroot_dclient.Proto.Machine.Answers.{in_bringup}
use py_xroot_dclient.Errors.{Error, Result, server_error, protocol_error, generic}
use py_xroot_dclient.Proto.Machine.Secure.{
  past_login, before_login, needs_tls, on_tls, needs_tls-Same,
}
use py_xroot_dclient.Proto.Constants.{kxr_ok, kxr_error, kxr_authmore, kxr_havetls}
use py_xroot_dclient.Proto.Machine.Login.{
  after_protocol, by_state, bringup, tls_established, begin_login, fail_server, on_protocol,
  fail_with, has_bits, on_bound, on_login,
}
use py_xroot_dclient.Base.{
  refl, ◌≡◌, ◌≢◌, false, Bytes, true, ◌⊎◌, inr, ◌==◌, inl, ap, is_nil, [], ◌||◌,
}

IsQuiet-fail_with : (e : Error) (m : Machine) → IsQuiet m → IsQuiet (fail_with e m)
unfolding past_login
IsQuiet-fail_with e m q = IsQuiet-fields m _ refl refl refl refl q

fail_with-IsSilent : (e : Error) (m : Machine) → IsSilent m → IsSilent (fail_with e m)
fail_with-IsSilent e m = Follows-IsSilent m _ (fail_with-Follows e m) (IsQuiet-fail_with e m)

begin_login-late : (env : Env) (m : Machine) → before_login (begin_login env m).1.state ≢ true
unfolding begin_login before_login
begin_login-late env m =
    let sent : Machine = record m { state = logging_in } in
    let bound : Machine = record m { state = binding } in
    on_bool {R = Result Unit × Machine} (λ q. before_login q.1.state ≢ true) (is_nil m.bind_to)
      (λ h. let no = (write_frame-Keeps _ sent).early h in absurd (cc))
      (λ h. let no = (write_frame-Keeps _ bound).early h in absurd (cc))

after_protocol-IsSilent :
    (env : Env) (m : Machine)
    → (m.tls_active ≡ false → IsQuiet m)
    → IsSilent (after_protocol env m).1
unfolding after_protocol needs_tls past_login
after_protocol-IsSilent env m q =
    on_test {R = Result Unit × Machine} (λ r. IsSilent r.1) (needs_tls m)
      (λ _.
        on_bool {R = Result Unit × Machine} (λ r. IsSilent r.1)
          (has_bits m.protocol_info.flags kxr_havetls)
          (λ inactive why. IsQuiet-fields m _ refl refl refl refl (q inactive))
          (λ inactive why. IsQuiet-fail_with protocol_error m (q inactive)))
      (λ e inactive why. absurd (never e why))
  where
    never :
        needs_tls m ≡ false
        → (needs_tls (begin_login env m).1 ≡ true)
          ⊎ (before_login (begin_login env m).1.state ≡ true)
        → ⊥
    never e (inl n) = let same = needs_tls-Same m _ (begin_login-Same env m) in cc
    never e (inr b) = begin_login-late env m b

pub tls_established-IsSilent :
    (env : Env) (m : Machine) → IsSilent m → IsSilent (tls_established env m).1
unfolding tls_established
tls_established-IsSilent env m h =
    let n : Machine = record m { tls_active = true } in
    on_tls {R = Result Unit × Machine} (λ q. IsSilent q.1) m.state
      (λ inactive why. let active = (begin_login-Same env n).active in absurd (cc)) h

on_step :
    {R : Type 0} (P : R → Type 0) (s : State) {a b c d e : R}
    → in_bringup s ≡ true
    → (s ≡ handshaking → P a)
    → (s ≡ negotiating → P b)
    → (past_login s ≡ true → P c)
    → (past_login s ≡ true → P d)
    → (past_login s ≡ true → P e)
    → P (elim s [ handshaking ↦ a | negotiating ↦ b | binding ↦ c | logging_in ↦ d | _ ↦ e ])
unfolding in_bringup past_login
on_step P handshaking h a b c d e = a refl
on_step P negotiating h a b c d e = b refl
on_step P binding h a b c d e = c refl
on_step P logging_in h a b c d e = d refl
on_step P authenticating h a b c d e = e refl
on_step P _ h a b c d e = cc

by_state-IsSilent :
    (env : Env) (header : ResponseHeader) (body : Bytes) (m : Machine)
    → IsSilent m
    → in_bringup m.state ≡ true
    → IsSilent (by_state env header body m).1
unfolding by_state past_login before_login on_protocol
by_state-IsSilent env header body m h busy =
    on_step {R = Result Unit × Machine} (λ q. IsSilent q.1) m.state busy
      (λ e inactive why.
        IsQuiet-fields m _ refl refl refl refl (h inactive (inr (ap before_login e))))
      (λ e. IsSilent-continue (parse_protocol body) (on_protocol env) m h (λ info.
        let n : Machine = emit (negotiated info) (record m { protocol_info = info }) in
        after_protocol-IsSilent env n (λ inactive.
          let q = h inactive (inr (ap before_login e)) in
          IsQuiet-fields m n q.not_yet refl refl refl q)))
      (λ p.
        IsSilent-continue (parse_bind body) on_bound m h
          (λ path. late-IsSilent m _ (on_bound-Follows path m p) p h))
      (λ p.
        IsSilent-continue (parse_login body) (on_login env) m h
          (λ info. late-IsSilent m _ (on_login-Follows env info m p) p h))
      (λ p.
        on_bool {R = Result Unit × Machine} (λ q. IsSilent q.1) (header.status == kxr_authmore)
          (late-IsSilent m _ (auth_step-Keeps env body m) p h)
          (late-IsSilent m _ (become_ready-Follows m p) p h))

pub bringup-IsSilent :
    (env : Env) (header : ResponseHeader) (body : Bytes) (m : Machine)
    → IsSilent m
    → in_bringup m.state ≡ true
    → IsSilent (bringup env header body m).1
unfolding bringup fail_server
bringup-IsSilent env header body m h busy =
    on_bool {R = Result Unit × Machine} (λ q. IsSilent q.1) (header.status == kxr_error)
      (IsSilent-continue (parse_error body) fail_server m h
        (λ info. fail_with-IsSilent (server_error generic info.code info.message []) m h))
      (on_bool {R = Result Unit × Machine} (λ q. IsSilent q.1)
        (header.status == kxr_ok || header.status == kxr_authmore)
        (by_state-IsSilent env header body m h busy) (fail_with-IsSilent protocol_error m h))
