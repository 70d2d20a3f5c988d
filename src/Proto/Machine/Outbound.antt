-- ===== src/Proto/Machine/Outbound.antt =====
-- The outbound half of src/xrd/proto/machine.py.
pub mod Secure
pub mod Quiet
pub mod Streams
pub mod Submitted
use py_xroot_dclient.Crypto.Sigver.{sign}
use py_xroot_dclient.Errors.{err, protocol_error, ok}
use py_xroot_dclient.Proto.Frames.{encode, handshake}
use py_xroot_dclient.Proto.Constants.{kxr_abletls, kxr_sha256_sig, kxr_wanttls, kxr_secreqs}
use py_xroot_dclient.Proto.Requests.{
  Request, end_session, pathid, protocol, sigver, path_data, opcode,
}
use py_xroot_dclient.Base.{
  Bool, ℕ, Bytes, if◌then◌else◌, Option, [], ◌∷◌, none, some, ltb, is_nil, ◌&&◌, not, ◌+◌, leb,
  ◌==◌, ◌++◌, false, length, List,
}
use Prim.Native.Nat.{bit_or}
use py_xroot_dclient.Base.Dict.{get, put, remove}
use py_xroot_dclient.Proto.Machine.Exec.{
  ◌>>=◌, ◌>>◌, pure, lift, modify, M, continue, write_path, write_out, emit,
}
use py_xroot_dclient.Proto.Machine.State.{
  Machine, Env, fresh, handshaking, ready, closed, disconnected, closed_by_client, sid_protocol,
  first_sid, Event,
}

-- The handshake and `kXR_protocol`.
greet : ℕ → M (Unit {0})
greet flags m =
    (do
      frame ← lift (encode (protocol flags) sid_protocol)
      modify (λ m. record m { out = m.out ++ frame; state = handshaking }))
      (record m { out = m.out ++ handshake })

unfoldable pub start : M (Unit {0})
unfolding greet
start m =
    let flags = bit_or (bit_or kxr_secreqs kxr_abletls) (if m.want_tls then kxr_wanttls else 0) in
    elim m.state [ fresh ↦ greet flags m | _ ↦ (err protocol_error, m) ]

unfoldable pub data_to_send : Machine → Bytes × Machine
data_to_send m = (m.out, record m { out = [] })

unfoldable pub path_data_to_send : ℕ → Machine → Bytes × Machine
unfolding get remove
path_data_to_send p m = elim (get m.out_path p) [
  | none ↦ ([], m)
  | some queued ↦ (queued, record m { out_path = remove m.out_path p })
]

unfoldable pub next_event : Machine → Option Event × Machine
next_event m = elim m.events [ [] ↦ (none, m) | e ∷ later ↦ (some e, record m { events = later }) ]

-- `events`, drained to its end.
unfoldable pub all_events : Machine → List Event × Machine
all_events m = (m.events, record m { events = [] })

unfoldable pub in_flight : Machine → ℕ
in_flight m = length m.pending

-- The counter after handing out `sid`: back to the first id behind 0xFFFF.
abbrev next_after : ℕ → ℕ
next_after sid = if ltb 0xffff (sid + 1) then first_sid else sid + 1

-- `_acquire_sid`
unfoldable pub acquire_sid : M ℕ
unfolding get
acquire_sid m = elim m.free [
  | sid ∷ rest ↦ (ok sid, record m { free = rest })
  | [] ↦ elim (get m.pending m.next_sid) [
    | some p ↦ (err protocol_error, record m { next_sid = next_after m.next_sid })
    | none ↦ (ok m.next_sid, record m { next_sid = next_after m.next_sid })
  ]
]

-- `self.signer.sign(frame)`, if there is a signer, and the signature frame put in front.
prefix : Request → ℕ → Bytes → Option (ℕ × Bytes) → M Bytes
prefix request sid frame none = pure frame
prefix request sid frame (some (seqno, mac)) = do
  sig ← lift (encode (sigver (opcode request) seqno mac kxr_sha256_sig false) sid)
  pure (sig ++ frame)

unfoldable pub sign_frame : Env → Request → ℕ → Bytes → M Bytes
unfolding prefix
sign_frame env request sid frame m = elim m.signer [
  | none ↦ (ok frame, m)
  | some s ↦
      (let (signed, s') = sign env.hmac frame s in
        continue signed (prefix request sid frame) (record m { signer = some s' }))
]

unfoldable pub enqueue : Request → ℕ → Bytes → Bytes → Machine → Machine
unfolding put
enqueue request sid frame path m = record m {
  pending = put m.pending sid (record {
    request = request;
    frame = frame;
    buffer = [];
    status = none;
    path = path;
    pathid = pathid request;
    path_bytes = path_data request;
  });
}

-- The whole frame on the data path, or the frame on the control link and its data beside it.
unfoldable pub route : Request → Bytes → Bool → Machine → Machine
unfolding write_path
route request frame arrive m =
    let split =
      (if is_nil (path_data request)
        then write_out frame m
        else write_path (pathid request) (path_data request) (write_out frame m)) in
    let whole =
      (if is_nil (path_data request)
        then write_path (pathid request) frame m
        else write_path (pathid request) (path_data request)
            (write_path (pathid request) frame m)) in
    if arrive && not (pathid request == 0) then whole else split

-- `_send`
unfoldable pub send : Env → Request → ℕ → Bytes → Bool → M (Unit {0})
unfolding sign_frame enqueue route
send env request sid path arrive = do
  frame ← lift (encode request sid)
  signed ← sign_frame env request sid frame
  modify (λ m. route request signed arrive (enqueue request sid signed path m))

submit_ready : Env → Request → Bytes → Bool → M ℕ
unfolding acquire_sid send
submit_ready env request path arrive = do
  sid ← acquire_sid
  send env request sid path arrive
  pure sid

unfoldable pub submit : Env → Request → Bytes → Bool → M ℕ
unfolding submit_ready
submit env request path arrive m = elim m.state [
  | ready ↦ submit_ready env request path arrive m
  | _ ↦ (err protocol_error, m)
]

unfoldable pub resume : ℕ → M (Unit {0})
unfolding get write_path
resume sid m = elim (get m.pending sid) [
  | none ↦ (err protocol_error, m)
  | some p ↦
      (let m' = write_out p.frame m in
        (ok tt, (if is_nil p.path_bytes then m' else write_path p.pathid p.path_bytes m')))
]

-- `release`: the id of a stream that was in flight is free again, if it is not a reserved one.
unfoldable pub release : ℕ → Machine → Machine
unfolding get remove
release sid m = elim (get m.pending sid) [
  | none ↦ m
  | some p ↦ record m {
    pending = remove m.pending sid;
    free = (if leb first_sid sid then sid ∷ m.free else m.free);
  }
]

end_session_frame : M (Unit {0})
unfolding acquire_sid
end_session_frame m =
    (do
      sid ← acquire_sid
      frame ← lift (encode (end_session m.session_id) sid)
      modify (write_out frame))
      m

finish_close : M (Unit {0})
finish_close = modify (λ m. emit (disconnected closed_by_client) (record m { state = closed }))

unfoldable pub close : Bool → M (Unit {0})
unfolding end_session_frame finish_close
close graceful m =
    let farewell = (do end_session_frame; finish_close) m in
    let plain = finish_close m in
    elim m.state [
      | ready ↦ if graceful && not (is_nil m.session_id) then farewell else plain
      | _ ↦ plain
    ]
