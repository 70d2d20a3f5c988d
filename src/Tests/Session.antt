-- ===== src/Tests/Session.antt =====
-- Fields and bodies of answers, security levels and the framing of a session at concrete inputs:
-- runs of src/xrd/proto/buffer.py, responses.py and machine.py, and of src/xrd/crypto/sigver.py.
use py_xroot_dclient.Proto.Frames.{decode_header}
use py_xroot_dclient.Proto.Machine.Framing.Progress.{parse-ne-out_of_fuel}
use py_xroot_dclient.Base.Int.{pos, negsuc}
use py_xroot_dclient.Proto.Machine.Framing.Chunks.{append_parsed, parse-append, Steady}
use py_xroot_dclient.Errors.{ok}
use py_xroot_dclient.Proto.Machine.Framing.Turns.{append}
use py_xroot_dclient.Crypto.Sigver.{is_signed, elem}
use py_xroot_dclient.Proto.Responses.Vector.{parse_readv, ReadVSegment}
use py_xroot_dclient.Proto.Constants.{kxr_rm, kxr_secstandard}
use py_xroot_dclient.Proto.Buffer.{pack_signed, pack_unsigned, be, of_be}
use py_xroot_dclient.Proto.Machine.State.{Env, Machine, Framer, new_machine, new_framer}
use py_xroot_dclient.Base.{Bytes, List, ◌∷◌, ◌≡◌, [], ◌≢◌, true, false, refl, none, suc}
use py_xroot_dclient.Proto.Machine.Framing.{
  parse, work, turn, out_of_fuel, choose, header_turn, body_turn,
}
use py_xroot_dclient.Proto.Responses.Vector.RoundTrip.{vector_wire, segment_wire, parse_readv-wire}

abbrev one_segment : List ReadVSegment
one_segment = record { fhandle = 1 ∷ 2 ∷ 3 ∷ 4 ∷ []; offset = pos 5; body = 7 ∷ 8 ∷ [] } ∷ []

abbrev one_segment_bytes : Bytes
one_segment_bytes = 1 ∷ 2 ∷ 3 ∷ 4 ∷ 0 ∷ 0 ∷ 0 ∷ 2 ∷ 0 ∷ 0 ∷ 0 ∷ 0 ∷ 0 ∷ 0 ∷ 0 ∷ 5 ∷ 7 ∷ 8 ∷ []

one_segment-wire : vector_wire one_segment ≡ ok one_segment_bytes
unfolding vector_wire segment_wire pack_signed be
one_segment-wire = refl

parse_readv-wire_example : parse_readv one_segment_bytes ≡ ok one_segment
parse_readv-wire_example =
    parse_readv-wire one_segment one_segment_bytes (refl, tt) one_segment-wire

pack-500 : pack_unsigned 2 500 ≡ ok (1 ∷ 244 ∷ [])
unfolding pack_unsigned be
pack-500 = refl

pack-negative : pack_signed 4 (negsuc 1) ≡ ok (255 ∷ 255 ∷ 255 ∷ 254 ∷ [])
unfolding pack_signed be
pack-negative = refl

is_signed-rm : is_signed kxr_rm kxr_secstandard [] ≡ true
unfolding is_signed elem
is_signed-rm = refl

abbrev pub plain_env : Env
plain_env = record {
  hmac = λ key message. message;
  select = λ sec. [];
  wait_cap = pos 60;
  pid = pos 1;
}

abbrev idle : Machine
idle = new_machine [] false [] none

-- The head of an answer and one byte of its body.
abbrev started : Framer
started = record new_framer { buffer = 0 ∷ 1 ∷ 0 ∷ 0 ∷ 0 ∷ 0 ∷ 0 ∷ 2 ∷ 5 ∷ [] }

started-Steady : Steady (suc (work started)) plain_env started idle
unfolding work turn choose header_turn body_turn decode_header of_be
started-Steady = (refl, tt)

parse-append_example :
    parse plain_env (append (6 ∷ []) started) idle
    ≡ append_parsed (6 ∷ []) plain_env (parse plain_env started idle)
parse-append_example = parse-append (6 ∷ []) plain_env started idle started-Steady

parse-ne-out_of_fuel_example : parse plain_env started idle ≢ out_of_fuel
parse-ne-out_of_fuel_example = parse-ne-out_of_fuel plain_env started idle
