-- ===== src/Proto/Machine/State.antt =====
-- The data of src/xrd/proto/machine.py: states, events, per-stream and per-link state, and the
-- attributes of `SessionMachine`. Texts that only describe an event are left out.
use py_xroot_dclient.Errors.{Error}
use py_xroot_dclient.Base.Dict.{Dict}
use py_xroot_dclient.Proto.Frames.{ResponseHeader}
use py_xroot_dclient.Proto.Responses.Control.{StatusInfo, RedirectInfo, AttnInfo}
use py_xroot_dclient.Base.Int.{pos, ℤ}
use py_xroot_dclient.Crypto.Sigver.{Hmac, Signer}
use py_xroot_dclient.Base.{ℕ, Bytes, [], Bool, Option, none, List, false, ◌∷◌}
use py_xroot_dclient.Proto.Requests.{Request}
use py_xroot_dclient.Proto.Responses.Bringup.{ProtocolInfo, security_of}

-- NEW, HANDSHAKE, PROTOCOL, TLS, LOGIN, AUTH, READY, FAILED, CLOSED and BIND, in this order.
pub data State : Type 0 where
  fresh handshaking negotiating tls logging_in authenticating ready failed closed binding : State

pub data Reason : Type 0 where
  closed_by_peer closed_by_client : Reason

pub data Event : Type 0 where
  negotiated : ProtocolInfo → Event
  -- whether the server demanded it
  need_tls : Bool → Event
  -- session_id, mechanism
  became_ready : Bytes → Bytes → Event
  completed : ℕ → Request → Bytes → Option StatusInfo → Event
  chunk : ℕ → Request → Bytes → Event
  redirected : ℕ → Request → RedirectInfo → Event
  -- seconds, message, resend
  waiting : ℕ → Request → ℤ → Bytes → Bool → Event
  attention : AttnInfo → Event
  -- a failed request, and a failed bring-up, which has no stream
  failed_request : ℕ → Request → Error → Event
  failed_session : Error → Event
  path_lost : ℕ → Event
  disconnected : Reason → Event

-- `_Pending`
pub record Pending : Type 0 where
  pub request : Request
  pub frame : Bytes
  pub buffer : Bytes
  pub status : Option StatusInfo
  pub path : Bytes
  pub pathid : ℕ
  pub path_bytes : Bytes

-- `_Framer`
pub record Framer : Type 0 where
  pub buffer : Bytes
  pub header : Option ResponseHeader
  pub need_trailer : ℤ
  pub trailer_for : Option ℕ

-- What `Credential.step` does: the next blob, `None`, or an exception.
pub data Answer : Type 0 where
  blob : Bytes → Answer
  nothing raised : Answer

-- src/xrd/auth/base.py: a mechanism, as its behaviour. It is an object with a state of its own, so
-- an answer, and the session key, are functions of the challenges seen so far, the last one first.
-- `initial` is `none` where it raises, the key empty where there is none.
pub record Credential : Type 0 where
  pub name : Bytes
  pub initial : Option Bytes
  pub step : List Bytes → Answer
  pub session_key : List Bytes → Bytes

-- What the machine takes from elsewhere: HMAC, the ladder that `auth.select` offers for a security
-- text, `config.wait_cap` in whole seconds and the process id.
pub record Env : Type 0 where
  pub hmac : Hmac
  pub select : Bytes → List Credential
  pub wait_cap : ℤ
  pub pid : ℤ

-- `free` has the end of Python's list first. `credentials` is what the iterator has left, `none`
-- before there is one. `auth_rejected` has the names only.
pub record Machine : Type 0 where
  pub username : Bytes
  pub want_tls : Bool
  pub bind_to : Bytes
  pub pathid : ℕ
  pub state : State
  pub protocol_info : ProtocolInfo
  pub session_id : Bytes
  pub mechanism : Bytes
  pub signer : Option Signer
  pub tls_active : Bool
  pub out : Bytes
  pub out_path : Dict Bytes
  pub events : List Event
  pub pending : Dict Pending
  pub free : List ℕ
  pub next_sid : ℕ
  pub framers : Dict Framer
  pub credentials : Option (List Credential)
  pub credential : Option (Credential × List Bytes)
  pub auth_rejected : List Bytes
  pub offered : List Bytes

abbrev pub sid_protocol : ℕ
sid_protocol = 1

abbrev pub sid_login : ℕ
sid_login = 2

abbrev pub sid_auth : ℕ
sid_auth = 3

abbrev pub sid_bind : ℕ
sid_bind = 2

abbrev pub first_sid : ℕ
first_sid = 4

abbrev pub new_framer : Framer
new_framer = record { buffer = []; header = none; need_trailer = pos 0; trailer_for = none }

-- `SessionMachine(…)`
unfoldable pub new_machine : Bytes → Bool → Bytes → Option (List Credential) → Machine
new_machine username want_tls bind_to credentials = record {
  username = username;
  want_tls = want_tls;
  bind_to = bind_to;
  pathid = 0;
  state = fresh;
  protocol_info = security_of (pos 0) 0 none;
  session_id = [];
  mechanism = [];
  signer = none;
  tls_active = false;
  out = [];
  out_path = [];
  events = [];
  pending = [];
  free = [];
  next_sid = first_sid;
  framers = (0, new_framer) ∷ [];
  credentials = credentials;
  credential = none;
  auth_rejected = [];
  offered = [];
}
