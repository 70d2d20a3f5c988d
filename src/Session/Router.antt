-- ===== src/Session/Router.antt =====
-- `Router` of src/xrd/session/router.py, and `_retarget`. What the network does in a turn of the loop
-- of `execute` is given by its number: the clock, what a new connection comes to, and how the request is answered.
pub mod Requests
pub mod Turns
pub mod Tries
pub mod Idempotent
pub mod Keyed
use py_xroot_dclient.Base.{
  Bool, ℕ, none, Bytes, List, some, ◌∷◌, true, suc, ◌++◌, [], false, Option, if◌then◌else◌, ltb,
  zero, ◌+◌, ◌==◌, ◌||◌, min, not, ◌*◌, ◌^◌, ◌-◌,
}
use py_xroot_dclient.Session.Identity.{Value, key_of}
use py_xroot_dclient.Session.World.{Key, World, is_closed, close_session}
use py_xroot_dclient.Session.Pool.{acquire, release}
use py_xroot_dclient.Proto.Requests.{
  Request, idempotent, stat, dirlist, locate, mkdir, rm, rmdir, readlink, setattr, chmod, truncate,
  open_file,
}
use py_xroot_dclient.Proto.Responses.Control.{RedirectInfo}
use py_xroot_dclient.Config.{Config}
use py_xroot_dclient.Url.{XRootDUrl, evolve}
use py_xroot_dclient.Base.Text.{codes}
use py_xroot_dclient.Base.Int.{ℤ, pos, negsuc, pos_part, neg_part, is_neg}

-- `'?' in path`
abbrev pub has_mark : Bytes → Bool
has_mark [] = false
has_mark (b ∷ bs) = b == 63 || has_mark bs

-- `_retarget` on a path: the token behind `?`, or behind `&` where the path has a `?`.
unfoldable pub add_token : Bytes → Bytes → Bytes
add_token [] path = path
add_token (t ∷ token) path = path ++ (if has_mark path then 38 else 63) ∷ t ∷ token

-- `_retarget`: the request classes that have a `path`.
unfoldable pub retarget : Bytes → Request → Request
retarget token (stat path options fhandle) = stat (add_token token path) options fhandle
retarget token (dirlist path options) = dirlist (add_token token path) options
retarget token (locate path options) = locate (add_token token path) options
retarget token (mkdir path mode mkpath) = mkdir (add_token token path) mode mkpath
retarget token (rm path) = rm (add_token token path)
retarget token (rmdir path) = rmdir (add_token token path)
retarget token (readlink path) = readlink (add_token token path)
retarget token (setattr path flags atime mtime uid gid) =
    setattr (add_token token path) flags atime mtime uid gid
retarget token (chmod path mode) = chmod (add_token token path) mode
retarget token (truncate path size fhandle) = truncate (add_token token path) size fhandle
retarget token (open_file path options mode) = open_file (add_token token path) options mode
retarget token request = request

-- How a request on a session ends: a result, `RedirectRequired`, `WaitLimitError`, the library's
-- `ConnectionError` (a `TimeoutError` or not), or any other exception.
pub data Answer : Type 0 where
  answered : Bytes → Answer
  redirected : RedirectInfo → Answer
  wait_limit : Answer
  lost : Bool → Answer
  raised : Answer

-- How `Session.connect` ends: a new session, a `ConnectionError`, or another exception.
pub data Dialled : Type 0 where
  connected : ℕ → Dialled
  unreachable : Bool → Dialled
  refused : Dialled

-- One turn. `closes` says that the session is closed once the request has ended.
pub record Turn : Type 0 where
  pub clock : ℕ
  pub dial : XRootDUrl → Config → Dialled
  pub answer : Answer
  pub closes : Bool
  pub put_clock : ℕ
  pub put_stamp : ℕ

pub record Router : Type 0 where
  pub url : XRootDUrl
  pub config : Config
  pub reconnect : Bool
  pub session : Option ℕ
  pub owns : Bool

unfoldable pub new_router : XRootDUrl → Config → Bool → Router
new_router u c reconnect = record {
  url = u;
  config = c;
  reconnect = reconnect;
  session = none;
  owns = true;
}

-- What `execute` raises or returns. `stuck` is the model's: the fuel ran out.
pub data Outcome : Type 0 where
  returned : Bytes → Outcome
  redirect_limit_error wait_limit_error other_error : Outcome
  transient_error timeout_error : ℕ → Outcome
  stuck : Outcome

-- What a router does in the course of `execute`: it asks the server of a URL over a session, and is
-- answered, or it sleeps.
pub data Act : Type 0 where
  asked : XRootDUrl → ℕ → Request → Answer → Act
  slept : ℕ → Act

pub record Run : Type 0 where
  pub outcome : Outcome
  pub router : Router
  pub world : World
  pub acts : List Act

-- `Router._drop`, and `Router.discard`.
unfoldable pub drop_session : Router → World → Router × World
drop_session r w = elim r.session [
  | none ↦ (record r { owns = true }, w)
  | some s ↦ (record r { session = none; owns = true }, close_session s w)
]

-- `Router._pause`, as the time slept, none where there is no sleep.
unfoldable pub pause : Config → ℕ → List Act
pause c attempts =
    if c.retry_backoff == 0
    then []
    else slept (min (c.retry_backoff * 2 ^ (attempts - 1)) c.wait_cap) ∷ []

-- `Router.pin`: the router left, and the pinned one.
unfoldable pub pin : Bool → Router → Router × Router
pin transfer r = (
  if transfer then record r { session = none } else r,
  record {
    url = r.url;
    config = r.config;
    reconnect = false;
    session = r.session;
    owns = transfer || elim r.session [ none ↦ true | some s ↦ false ];
  },
)

-- `self._session = ...`, which a raised exception leaves out.
unfoldable pub set_session : Router → Dialled → Router
set_session r (connected s) = record r { session = some s; owns = true }
set_session r (unreachable timed_out) = record r { owns = true }
set_session r refused = record r { owns = true }

-- `self.session.execute(request, ...)`
unfoldable pub ask : Turn → Request → Dialled → Router → World → Answer × World × List Act
ask t request (connected s) r w =
    (t.answer, if t.closes then close_session s w else w, asked r.url s request t.answer ∷ [])
ask t request (unreachable timed_out) r w = (lost timed_out, w, [])
ask t request refused r w = (raised, w, [])

-- `abs(target.port) or self.url.port`
abbrev target_port : ℤ → ℤ → ℤ
target_port (pos zero) old = old
target_port (pos (suc n)) old = pos (suc n)
target_port (negsuc n) old = pos (suc n)

-- `attempts > self.config.connect_retries` for an `attempts` that is at least 1, and so for hops.
abbrev pub over : ℕ → ℤ → Bool
over n limit = ltb (pos_part limit) n

abbrev pub end_run : Router → World → List Act → Outcome → Run
end_run r w acts o = record { outcome = o; router = r; world = w; acts = acts }

abbrev pub prepend : List Act → Run → Run
prepend before run = record run { acts = before ++ run.acts }

-- Enough: each turn but the last is a redirect that was followed or a connection that was lost.
abbrev pub enough : Config → ℕ
enough c = suc (pos_part c.redirect_limit + pos_part c.connect_retries)

module _ (repr : Value → Bytes) (sha256 : Bytes → Bytes) where
  abbrev pub router_key : Router → Key
  router_key r = key_of repr sha256 r.url r.config

  -- `SESSIONS.acquire(...) or Session.connect(...)`
  unfoldable pub fresh_session : Turn → Router → World → Dialled × World
  fresh_session t r w =
      let got = acquire r.config t.clock (router_key r) w in
      elim got.0 [ none ↦ (t.dial r.url r.config, got.1) | some s ↦ (connected s, got.1) ]

  unfoldable pub open_session : Turn → Router → World → Dialled × Router × World
  open_session t r w = let d = fresh_session t r w in (d.0, set_session r d.0, d.1)

  -- The property `Router.session`.
  unfoldable pub live_session : Turn → Router → World → Dialled × Router × World
  live_session t r w = elim r.session [
    | none ↦ open_session t r w
    | some s ↦
        if is_closed w s
        then if r.reconnect then open_session t r (close_session s w) else (unreachable false, r, w)
        else (connected s, r, w)
  ]

  -- `Router.close`
  unfoldable pub close : Turn → Router → World → Router × World
  close t r w =
      let left = record r { session = none; owns = true } in
      elim r.session [
        | none ↦ (left, w)
        | some s ↦
            let kept = release r.config t.put_clock t.put_stamp (router_key r) s w in
            if r.owns then (left, if kept.0 then kept.1 else close_session s kept.1) else (left, w)
      ]

  -- `Router._follow`
  unfoldable pub follow : Turn → RedirectInfo → Router → World → Router × World
  follow t target r w =
      let left = close t r w in
      (
        record left.0 {
          url =
              evolve r.url (if is_neg target.port then codes "roots" else r.url.scheme) target.host
                (target_port target.port r.url.port);
        },
        left.1,
      )

  -- The loop of `Router.execute`. Each turn takes one unit of fuel.
  unfoldable pub execute_loop : ℕ → (ℕ → Turn) → ℕ → ℕ → Request → Router → World → Run
  execute_loop zero turns hops attempts request r w = record {
    outcome = stuck;
    router = r;
    world = w;
    acts = [];
  }
  execute_loop (suc fuel) turns hops attempts request r w =
      let t = turns (hops + attempts) in
      let now = live_session t r w in
      let reply = ask t request now.0 now.1 now.2 in
      let r' = now.1 in
      let w' = reply.1 in
      let stop = end_run r' w' reply.2 in
      elim reply.0 [
        | answered body ↦ stop (returned body)
        | redirected target ↦
            let moved = follow t target r' w' in
            let rest =
              execute_loop fuel turns (suc hops) attempts (retarget target.token request) moved.0
                moved.1 in
            if over (suc hops) r.config.redirect_limit
            then stop redirect_limit_error
            else prepend reply.2 rest
        | wait_limit ↦ stop wait_limit_error
        | lost timed_out ↦
            let dropped = drop_session r' w' in
            let rest = execute_loop fuel turns hops (suc attempts) request dropped.0 dropped.1 in
            if not r.reconnect
              || over (suc attempts) r.config.connect_retries
              || not (idempotent request)
            then stop
                (if timed_out then timeout_error (suc attempts) else transient_error (suc attempts))
            else prepend (reply.2 ++ pause r.config (suc attempts)) rest
        | raised ↦ stop other_error
      ]

  -- `Router.execute`
  unfoldable pub execute : (ℕ → Turn) → Request → Router → World → Run
  execute turns request r w = execute_loop (enough r.config) turns 0 0 request r w
