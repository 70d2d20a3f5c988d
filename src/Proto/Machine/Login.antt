-- ===== src/Proto/Machine/Login.antt =====
-- Bring-up in src/xrd/proto/machine.py: TLS, login, binding and the authentication ladder.
pub mod Secure
pub mod Quiet
pub mod Streams
use py_xroot_dclient.Crypto.Sigver.{Signer, new_signer}
use py_xroot_dclient.Proto.Requests.{bind, Request, login, auth}
use py_xroot_dclient.Proto.Responses.Control.{ErrorInfo, parse_error}
use py_xroot_dclient.Proto.Responses.Bringup.{
  ProtocolInfo, LoginInfo, mechanisms, parse_protocol, parse_bind, parse_login,
}
use py_xroot_dclient.Errors.{
  Error, err, ok, Result, authentication_error, no_mechanism, protocol_error, server_error, generic,
  value_error,
}
use py_xroot_dclient.Proto.Frames.{encode, ResponseHeader}
use py_xroot_dclient.Proto.Constants.{
  kxr_error, kxr_tlssess, kxr_ok, kxr_gototls, kxr_tlsdata, kxr_authmore, kxr_asyncap, kxr_havetls,
  kxr_tlslogin, kxr_ver005,
}
use py_xroot_dclient.Base.{
  Bytes, ℕ, Option, true, List, [], Bool, ◌∷◌, ◌+◌, if◌then◌else◌, none, not, is_nil, ◌||◌, ◌==◌,
  some, bytes_eq, ltb, length,
}
use Prim.Native.Nat.{bit_and}
use py_xroot_dclient.Proto.Machine.Exec.{◌>>=◌, lift, modify, M, continue, write_out, emit}
use py_xroot_dclient.Proto.Machine.State.{
  Machine, Env, failed, ready, tls, logging_in, authenticating, negotiating, binding, need_tls,
  became_ready, handshaking, Credential, sid_auth, negotiated, failed_session, sid_bind, blob,
  nothing, sid_login, raised,
}

-- `_fail`
abbrev pub fail_with : Error → Machine → Machine
fail_with e m = emit (failed_session e) (record m { state = failed })

-- kXR_gotoTLS, kXR_tlsLogin, kXR_tlsSess and kXR_tlsData.
abbrev pub tls_demands : ℕ
tls_demands = kxr_gototls + kxr_tlslogin + kxr_tlssess + kxr_tlsdata

abbrev pub has_bits : ℕ → ℕ → Bool
has_bits flags mask = not (bit_and flags mask == 0)

-- `_begin_login`
unfoldable pub begin_login : Env → M (Unit {0})
begin_login env m =
    let bound =
      (do frame ← lift (encode (bind m.bind_to) sid_bind); modify (write_out frame))
        (record m { state = binding }) in
    let login_sent =
      (do
        frame ← lift (encode (login m.username env.pid (kxr_ver005 + kxr_asyncap) []) sid_login)
        modify (write_out frame))
        (record m { state = logging_in }) in
    if is_nil m.bind_to then login_sent else bound

-- `tls_established`
unfoldable pub tls_established : Env → M (Unit {0})
unfolding begin_login
tls_established env m = elim m.state [
  | tls ↦ begin_login env (record m { tls_active = true })
  | _ ↦ (err protocol_error, m)
]

-- `_after_protocol`
unfoldable pub after_protocol : Env → M (Unit {0})
unfolding begin_login
after_protocol env m =
    let flags = m.protocol_info.flags in
    let demanded = has_bits flags tls_demands in
    let upgrade = emit (need_tls demanded) (record m { state = tls }) in
    let proceed = begin_login env m in
    if m.want_tls || demanded
    then (if has_bits flags kxr_havetls
        then (ok tt, upgrade)
        else (ok tt, fail_with protocol_error m))
    else proceed

-- `Auth.__init__`, which refuses a name of more than 4 bytes.
unfoldable pub new_auth : Bytes → Bytes → Result Request
new_auth name cred = if ltb 4 (length name) then err value_error else ok (auth name cred)

-- The write of `d[name] = …` or `d.setdefault(name, …)` on a dict of which only the keys count.
unfoldable pub add_name : Bytes → List Bytes → List Bytes
add_name name [] = name ∷ []
add_name name (n ∷ ns) = if bytes_eq n name then n ∷ ns else n ∷ add_name name ns

send_auth : Bytes → Bytes → M (Unit {0})
unfolding new_auth
send_auth name cred = do
  request ← lift (new_auth name cred)
  frame ← lift (encode request sid_auth)
  modify (write_out frame)

-- The loop of `_next_credential` over what the iterator has left.
unfoldable pub ladder : List Credential → M (Unit {0})
unfolding send_auth add_name
ladder [] m =
    (ok tt, fail_with (no_mechanism m.offered m.auth_rejected) (record m { credentials = some [] }))
ladder (c ∷ cs) m = elim c.initial [
  | none ↦ ladder cs (record m { auth_rejected = add_name c.name m.auth_rejected })
  | some first ↦
      send_auth c.name first
        (record m { credential = some (c, []); mechanism = c.name; credentials = some cs })
]

-- `_next_credential`
unfoldable pub next_credential : Env → Bytes → M (Unit {0})
unfolding ladder
next_credential env sec m = elim m.credentials [
  | none ↦ ladder (env.select sec) m
  | some cs ↦ ladder cs m
]

rejecting : Env → Bytes → M (Unit {0})
unfolding next_credential add_name
rejecting env name m =
    next_credential env [] (record m { auth_rejected = add_name name m.auth_rejected })

-- `_auth_step`
unfoldable pub auth_step : Env → Bytes → M (Unit {0})
unfolding rejecting send_auth
auth_step env challenge m = elim m.credential [
  | none ↦ (ok tt, fail_with authentication_error m)
  | some (c, seen) ↦
      (let m' : Machine = record m { credential = some (c, challenge ∷ seen) } in
        elim (c.step (challenge ∷ seen)) [
          | blob next ↦ send_auth c.name next m'
          | nothing ↦ rejecting env c.name m'
          | raised ↦ rejecting env c.name m'
        ])
]

-- The signer of a session whose mechanism has left a key.
new_signer_for : Machine → Option Signer
new_signer_for m = elim m.credential [
  | none ↦ m.signer
  | some (c, seen) ↦
      if is_nil (c.session_key seen)
      then m.signer
      else some (
          new_signer (c.session_key seen) m.protocol_info.security_level
            m.protocol_info.security_overrides)
]

-- `_become_ready`
unfoldable pub become_ready : Machine → Machine
unfolding new_signer_for
become_ready m =
    emit (became_ready m.session_id m.mechanism)
      (record m { state = ready; signer = new_signer_for m })

pub on_login : Env → LoginInfo → M (Unit {0})
unfolding become_ready next_credential
on_login env info m =
    let m' : Machine = record m { session_id = info.sessid; offered = mechanisms info } in
    let ladder_first = next_credential env info.sec (record m' { state = authenticating }) in
    if is_nil info.sec then (ok tt, become_ready m') else ladder_first

on_protocol : Env → ProtocolInfo → M (Unit {0})
unfolding after_protocol
on_protocol env info m =
    after_protocol env (emit (negotiated info) (record m { protocol_info = info }))

pub on_bound : ℕ → M (Unit {0})
unfolding become_ready
on_bound p m = (ok tt, become_ready (record m { pathid = p }))

-- The answer to the step that the state stands for. Here the status is kXR_ok or kXR_authmore.
by_state : Env → ResponseHeader → Bytes → M (Unit {0})
unfolding on_login on_protocol on_bound auth_step become_ready
by_state env header body m = elim m.state [
  | handshaking ↦ (ok tt, record m { state = negotiating })
  | negotiating ↦ continue (parse_protocol body) (on_protocol env) m
  | binding ↦ continue (parse_bind body) on_bound m
  | logging_in ↦ continue (parse_login body) (on_login env) m
  | _ ↦ if header.status == kxr_authmore then auth_step env body m else (ok tt, become_ready m)
]

fail_server : ErrorInfo → M (Unit {0})
fail_server info m = (ok tt, fail_with (server_error generic info.code info.message []) m)

-- `_bringup`
unfoldable pub bringup : Env → ResponseHeader → Bytes → M (Unit {0})
unfolding by_state fail_server
bringup env header body m =
    if header.status == kxr_error
    then continue (parse_error body) fail_server m
    else if header.status == kxr_ok || header.status == kxr_authmore
    then by_state env header body m
    else (ok tt, fail_with protocol_error m)
