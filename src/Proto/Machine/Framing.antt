-- ===== src/Proto/Machine/Framing.antt =====
-- Inbound framing in src/xrd/proto/machine.py: `_parse`, `receive_data` and the ends of links. A
-- framer is a parameter and a result of the loop, which alone writes to it.
pub mod Secure
pub mod Quiet
pub mod Streams
pub mod Invariants
pub mod Progress
pub mod Turns
pub mod Chunks
use py_xroot_dclient.Proto.Constants.{response_hdrlen}
use py_xroot_dclient.Base.Int.{pos, ℤ, negsuc, pos_part}
use py_xroot_dclient.Errors.{Result, Error, connection_error, ok, err, stuck, assertion_error}
use py_xroot_dclient.Proto.Frames.{ResponseHeader, decode_header}
use py_xroot_dclient.Proto.Machine.Answers.{Trailer, on_status_data, dispatch}
use py_xroot_dclient.Proto.Machine.Outbound.{release}
use py_xroot_dclient.Base.{
  ◌++◌, ℕ, Bytes, if◌then◌else◌, suc, length, none, some, drop, List, ◌==◌, ltb, zero, ◌+◌, is_nil,
  take, ◌-◌, ◌∷◌, [], Option,
}
use py_xroot_dclient.Base.Dict.{get, put, remove, Dict}
use py_xroot_dclient.Proto.Machine.State.{
  Machine, Env, closed, failed, new_framer, Framer, path_lost, disconnected, Event, closed_by_peer,
  failed_request,
}
use py_xroot_dclient.Proto.Machine.State.{Pending}
use py_xroot_dclient.Proto.Machine.Exec.{M, emit}

-- What one turn of the loop of `_parse` does: it goes on, returns for want of bytes, or raises.
pub data Turn : Type 0 where
  next wait : Framer → Machine → Turn
  stop : Error → Framer → Machine → Turn

-- Where `buf[:n]` ends, for the length of `buf`: an n below 0 counts from the back.
unfoldable pub cut : ℕ → ℤ → ℕ
cut len (pos n) = n
cut len (negsuc k) = len - (k + 1)

unfoldable pub set_trailer : Trailer → Framer → Framer
set_trailer none f = f
set_trailer (some (need, sid)) f = record f { need_trailer = need; trailer_for = some sid }

unfoldable pub after_dispatch : Framer → Result Trailer → Machine → Turn
unfolding set_trailer
after_dispatch f (ok t) m = next (set_trailer t f) m
after_dispatch f (err e) m = stop e f m

unfoldable pub body_turn : Env → ResponseHeader → Framer → Machine → Turn
unfolding after_dispatch
body_turn env h f m =
    let f' = record f { buffer = drop h.dlen f.buffer; header = none } in
    let (r, m') = dispatch env h (take h.dlen f.buffer) m in
    if ltb (length f.buffer) h.dlen then wait f m else after_dispatch f' r m'

unfoldable pub header_turn : Env → Framer → Machine → Turn
unfolding body_turn
header_turn env f m =
    if ltb (length f.buffer) response_hdrlen
    then wait f m
    else elim (decode_header (take response_hdrlen f.buffer)) [
      | ok h ↦
          body_turn env h (record f { buffer = drop response_hdrlen f.buffer; header = some h }) m
      | err e ↦ stop e f m
    ]

unfoldable pub trailer_turn : Framer → Machine → Turn
unfolding cut on_status_data
trailer_turn f m =
    let n = cut (length f.buffer) f.need_trailer in
    let f' = record f { buffer = drop n f.buffer; need_trailer = pos 0; trailer_for = none } in
    if ltb (length f.buffer) (pos_part f.need_trailer) then wait f m else elim f.trailer_for [
      | none ↦ stop assertion_error f' m
      | some sid ↦ next f' (on_status_data sid (take n f.buffer) m)
    ]

unfoldable pub choose : Env → ℤ → Option ResponseHeader → Framer → Machine → Turn
choose env (pos zero) none f m = header_turn env f m
choose env (pos zero) (some h) f m = body_turn env h f m
choose env (pos (suc n)) header f m = trailer_turn f m
choose env (negsuc n) header f m = trailer_turn f m

-- One turn of `while True`.
unfoldable pub turn : Env → Framer → Machine → Turn
turn env f m = choose env f.need_trailer f.header f m

-- How `_parse` ends; `out_of_fuel` is no behaviour of the code.
pub data Parsed : Type 0 where
  drained : Framer → Machine → Parsed
  broken : Error → Framer → Machine → Parsed
  out_of_fuel : Parsed

unfoldable pub run : ℕ → Env → Framer → Machine → Parsed
run zero env f m = out_of_fuel
run (suc fuel) env f m = elim (turn env f m) [
  | next f' m' ↦ run fuel env f' m'
  | wait f' m' ↦ drained f' m'
  | stop e f' m' ↦ broken e f' m'
]

-- Every turn that goes on makes this smaller.
unfoldable pub work : Framer → ℕ
work f =
    length f.buffer
    + (elim f.header [ none ↦ 0 | some h ↦ 2 ])
    + (elim f.need_trailer [ pos zero ↦ 0 | _ ↦ 1 ])

-- `_parse`
unfoldable pub parse : Env → Framer → Machine → Parsed
unfolding run work
parse env f m = run (suc (work f)) env f m

fail_all : Dict Pending → Error → List Event
fail_all [] e = []
fail_all ((sid, p) ∷ d) e = failed_request sid p.request e ∷ fail_all d e

end_of_session : Machine → Machine
unfolding fail_all
end_of_session m = record m {
  state = closed;
  events = (m.events ++ fail_all m.pending connection_error) ++ (disconnected closed_by_peer ∷ []);
  pending = [];
}

-- `_on_eof`
unfoldable pub on_eof : Machine → Machine
unfolding end_of_session
on_eof m = elim m.state [ closed ↦ m | failed ↦ m | _ ↦ end_of_session m ]

-- The streams that wait on a data path, in the order in which they were opened.
unfoldable pub on_path : ℕ → Dict Pending → Dict Pending
on_path p [] = []
on_path p ((sid, q) ∷ d) = let rest = on_path p d in if q.pathid == p then (sid, q) ∷ rest else rest

release_all : Dict Pending → Machine → Machine
unfolding release
release_all [] m = m
release_all ((sid, q) ∷ d) m = release_all d (release sid m)

-- `forget_path`
unfoldable pub forget_path : ℕ → Machine → Machine
unfolding release_all on_path remove
forget_path p m =
    let m' = release_all (on_path p m.pending) m in
    record m' { framers = remove m'.framers p; out_path = remove m'.out_path p }

-- `_on_path_eof`
unfoldable pub on_path_eof : ℕ → Machine → Machine
unfolding forget_path fail_all
on_path_eof p m = emit (path_lost p) (
    forget_path p
      (record m { events = m.events ++ fail_all (on_path p m.pending) connection_error }))

-- The framer of a link, a new one if it has none.
framer_of : Machine → ℕ → Framer
unfolding get
framer_of m p = elim (get m.framers p) [ none ↦ new_framer | some f ↦ f ]

keep_framer : ℕ → Machine → Parsed → Result (Unit {0}) × Machine
unfolding put
keep_framer p start (drained f m) = (ok tt, record m { framers = put m.framers p f })
keep_framer p start (broken e f m) = (err e, record m { framers = put m.framers p f })
keep_framer p start out_of_fuel = (err stuck, start)

-- `receive_data`, where an empty byte string is the end of the link.
unfoldable pub receive_data : Env → Bytes → ℕ → M (Unit {0})
unfolding framer_of keep_framer parse turn choose body_turn header_turn trailer_turn on_eof
    on_path_eof
receive_data env bs p m =
    let f = framer_of m p in
    let m' : Machine = record m { framers = put m.framers p f } in
    let ended : Machine = (if p == 0 then on_eof m' else on_path_eof p m') in
    let more = keep_framer p m' (parse env (record f { buffer = f.buffer ++ bs }) m') in
    if is_nil bs then (ok tt, ended) else more
