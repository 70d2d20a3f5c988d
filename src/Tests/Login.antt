-- ===== src/Tests/Login.antt =====
-- A session that wants TLS, up to its login, and one that does not, up to its first request.
use Prim.Native.Nat.{bit_and}
use py_xroot_dclient.Proto.Machine.Quiet.{IsGreeting}
use py_xroot_dclient.Proto.Machine.Outbound.Submitted.{InFlight}
use py_xroot_dclient.Errors.{ok}
use py_xroot_dclient.Proto.Text.{before_sep}
use py_xroot_dclient.Proto.Machine.Outbound.{submit, send, sign_frame, enqueue, route, acquire_sid}
use py_xroot_dclient.Proto.Responses.Bringup.{parse_login}
use py_xroot_dclient.Proto.Machine.Login.{become_ready}
use py_xroot_dclient.Proto.Requests.{ping, pathid}
use py_xroot_dclient.Proto.Machine.Secure.{past_login}
use py_xroot_dclient.Proto.Machine.State.{new_machine, Pending, first_sid}
use py_xroot_dclient.Proto.Machine.Reach.{
  perform, created, tls_before_login, call_submit, stream_in_range, streams_apart, submit_fresh,
}
use py_xroot_dclient.Proto.Machine.Outbound.{start}
use py_xroot_dclient.Proto.Machine.Login.{tls_established, after_protocol, begin_login, bringup}
use py_xroot_dclient.Proto.Machine.Answers.{dispatch, deliver, in_bringup}
use py_xroot_dclient.Proto.Machine.Framing.{
  receive_data, parse, run, turn, choose, header_turn, body_turn, after_dispatch, set_trailer, work,
}
use py_xroot_dclient.Proto.Frames.{encode, finish, header, decode_header}
use py_xroot_dclient.Proto.Requests.{params, payload, path_data, opcode, trailer}
use py_xroot_dclient.Proto.Buffer.{
  u8, u16, u32, i32, raw, zeros, padded, pad, pack_unsigned, pack_signed, be, of_be, to_signed,
  take_bytes, read_unsigned, read_signed, remaining, rest,
}
use py_xroot_dclient.Proto.Responses.Bringup.{
  parse_protocol, security_of, find_sec_reqs, read_overrides,
}
use py_xroot_dclient.Base.Dict.{get, put, keys}
use py_xroot_dclient.Proto.Machine.Framing.{receive_data, parse, run}
use py_xroot_dclient.Proto.Machine.Login.{tls_established}
use py_xroot_dclient.Proto.Machine.Outbound.{start}
use py_xroot_dclient.Tests.Session.{plain_env}
use py_xroot_dclient.Proto.Machine.Reach.{
  Reachable, perform, call_tls_established, call_start, called, call_receive_data,
}
use py_xroot_dclient.Base.{
  Bytes, replicate, ◌++◌, ◌∷◌, [], true, none, ◌≡◌, refl, count, false, some, ◌≤◌, ◌+◌, ◌||◌, not,
  ◌==◌,
}
use py_xroot_dclient.Proto.Machine.State.{new_machine, Machine, logging_in}

abbrev tls_answers : Bytes
tls_answers =
    (replicate 7 0 ++ (8 ∷ (replicate 8 0)))
    ++ (0 ∷ 1 ∷ 0 ∷ 0 ∷ 0 ∷ 0 ∷ 0 ∷ 8 ∷ 0 ∷ 0 ∷ 5 ∷ 32 ∷ 128 ∷ 0 ∷ 0 ∷ 1 ∷ [])

abbrev greeted : Machine
greeted = perform plain_env call_start (new_machine (97 ∷ []) true [] none)

-- The server has offered TLS, and the client waits for it.
abbrev upgrading : Machine
upgrading = perform plain_env (call_receive_data tls_answers 0) greeted

abbrev upgrading-Reachable : Reachable plain_env upgrading
upgrading-Reachable =
    called (called (created (97 ∷ []) true [] none) call_start) (call_receive_data tls_answers 0)

abbrev upgraded : Machine
upgraded = perform plain_env call_tls_established upgrading

upgraded-logged_in : upgraded.state ≡ logging_in
unfolding new_machine perform start tls_established after_protocol begin_login bringup dispatch
    deliver in_bringup receive_data parse run turn choose header_turn body_turn after_dispatch
    set_trailer work encode finish header decode_header params payload path_data opcode trailer u8
    u16 u32 i32 raw zeros padded pad pack_unsigned pack_signed be of_be to_signed take_bytes
    read_unsigned read_signed remaining rest parse_protocol security_of find_sec_reqs read_overrides
    get put
upgraded-logged_in = refl

upgrading-wants :
    (upgrading.want_tls || not (bit_and upgrading.protocol_info.flags 0x4d000000 == 0)) ≡ true
unfolding new_machine perform start tls_established after_protocol begin_login bringup dispatch
    deliver in_bringup receive_data parse run turn choose header_turn body_turn after_dispatch
    set_trailer work encode finish header decode_header params payload path_data opcode trailer u8
    u16 u32 i32 raw zeros padded pad pack_unsigned pack_signed be of_be to_signed take_bytes
    read_unsigned read_signed remaining rest parse_protocol security_of find_sec_reqs read_overrides
    get put
upgrading-wants = refl

upgrading-inactive : upgrading.tls_active ≡ false
unfolding new_machine perform start tls_established after_protocol begin_login bringup dispatch
    deliver in_bringup receive_data parse run turn choose header_turn body_turn after_dispatch
    set_trailer work encode finish header decode_header params payload path_data opcode trailer u8
    u16 u32 i32 raw zeros padded pad pack_unsigned pack_signed be of_be to_signed take_bytes
    read_unsigned read_signed remaining rest parse_protocol security_of find_sec_reqs read_overrides
    get put
upgrading-inactive = refl

tls_before_login_example :
    IsGreeting upgrading.out
    × (upgrading.out_path ≡ [])
    × (upgrading.pending ≡ [])
    × (past_login upgrading.state ≡ false)
tls_before_login_example = tls_before_login upgrading-Reachable upgrading-wants upgrading-inactive

abbrev plain_answers : Bytes
plain_answers =
    (replicate 7 0 ++ (8 ∷ (replicate 8 0)))
    ++ (0 ∷ 1 ∷ 0 ∷ 0 ∷ 0 ∷ 0 ∷ 0 ∷ 8 ∷ 0 ∷ 0 ∷ 5 ∷ 32 ∷ 0 ∷ 0 ∷ 0 ∷ 1 ∷ [])
    ++ (0 ∷ 2 ∷ 0 ∷ 0 ∷ 0 ∷ 0 ∷ 0 ∷ 16 ∷ replicate 16 1)

abbrev logged_in : Machine
logged_in =
    perform plain_env (call_receive_data plain_answers 0)
      (perform plain_env call_start (new_machine (97 ∷ []) false [] none))

abbrev logged_in-Reachable : Reachable plain_env logged_in
logged_in-Reachable =
    called (called (created (97 ∷ []) false [] none) call_start) (call_receive_data plain_answers 0)

abbrev asked : Machine
asked = perform plain_env (call_submit ping [] false) logged_in

abbrev asked-Reachable : Reachable plain_env asked
asked-Reachable = called logged_in-Reachable (call_submit ping [] false)

abbrev pinging : Pending
pinging = record {
  request = ping;
  frame = 0 ∷ 4 ∷ 11 ∷ 195 ∷ replicate 20 0;
  buffer = [];
  status = none;
  path = [];
  pathid = 0;
  path_bytes = [];
}

asked-pending : get asked.pending 4 ≡ some pinging
unfolding new_machine perform start tls_established after_protocol begin_login bringup dispatch
    deliver in_bringup receive_data parse run turn choose header_turn body_turn after_dispatch
    set_trailer work encode finish header decode_header params payload path_data opcode trailer u8
    u16 u32 i32 raw zeros padded pad pack_unsigned pack_signed be of_be to_signed take_bytes
    read_unsigned read_signed remaining rest parse_protocol security_of find_sec_reqs read_overrides
    get put submit send sign_frame enqueue route acquire_sid parse_login become_ready pathid
    before_sep
asked-pending = refl

streams_apart_example : count 4 (keys asked.pending) + count 4 asked.free ≤ 1
streams_apart_example = streams_apart asked-Reachable 4

stream_in_range_example : (first_sid ≤ 4) × (4 ≤ 0xffff)
stream_in_range_example = stream_in_range asked-Reachable 4 pinging asked-pending

logged_in-submit : (submit plain_env ping [] false logged_in).0 ≡ ok 4
unfolding new_machine perform start tls_established after_protocol begin_login bringup dispatch
    deliver in_bringup receive_data parse run turn choose header_turn body_turn after_dispatch
    set_trailer work encode finish header decode_header params payload path_data opcode trailer u8
    u16 u32 i32 raw zeros padded pad pack_unsigned pack_signed be of_be to_signed take_bytes
    read_unsigned read_signed remaining rest parse_protocol security_of find_sec_reqs read_overrides
    get put submit send sign_frame enqueue route acquire_sid parse_login become_ready pathid
    before_sep
logged_in-submit = refl

submit_fresh_example :
    (get logged_in.pending 4 ≡ none) × InFlight ping 4 (submit plain_env ping [] false logged_in).1
submit_fresh_example = submit_fresh logged_in-Reachable ping [] false 4 logged_in-submit
