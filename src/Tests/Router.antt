-- ===== src/Tests/Router.antt =====
-- A router that is sent on to another server, and one that loses its connection.
use py_xroot_dclient.Base.{[], refl, ℕ, ◌≡◌, true, suc, false, ◌≢◌, length, none, ◌≤◌, zero}
use py_xroot_dclient.Tests.Pool.{server, ann, plain_repr, plain_digest}
use py_xroot_dclient.Session.Router.{
  Router, Turn, Answer, Dialled, connected, answered, redirected, execute, stuck, lost,
}
use py_xroot_dclient.Session.Router.Turns.{execute-ends, asks}
use py_xroot_dclient.Session.Router.Idempotent.{execute-OneAttempt, OneAttempt}
use py_xroot_dclient.Session.Router.Keyed.{execute-Made, RunMade, connected-injective}
use py_xroot_dclient.Session.Identity.{key_of}
use py_xroot_dclient.Session.World.{World, Key}
use py_xroot_dclient.Proto.Requests.{Request, stat, mkdir, idempotent}
use py_xroot_dclient.Config.{Config}
use py_xroot_dclient.Url.{XRootDUrl}
use py_xroot_dclient.Base.Text.{codes}
use py_xroot_dclient.Base.Int.{pos}

-- A connection has the length of its host's name as its number.
abbrev dial_length : XRootDUrl → Config → Dialled
dial_length u c = connected (length u.host)

abbrev turn_of : Answer → Turn
turn_of a = record {
  clock = 5;
  dial = dial_length;
  answer = a;
  closes = false;
  put_clock = 5;
  put_stamp = 5;
}

-- Sent on to the server `data`, and served there.
abbrev moving : ℕ → Turn
moving zero = turn_of (redirected (record { host = codes "data"; port = pos 0; token = codes "t" }))
moving (suc i) = turn_of (answered (codes "ok"))

-- Every connection is lost once it is used.
abbrev losing : ℕ → Turn
losing i = turn_of (lost false)

abbrev no_world : World
no_world = record { idle = []; closed = [] }

abbrev router : Router
router = record { url = server; config = ann; reconnect = true; session = none; owns = true }

abbrev look : Request
look = stat (codes "/f") 0 []

abbrev make : Request
make = mkdir (codes "/d") 0 false

execute-ends_example :
    ((execute plain_repr plain_digest moving look router no_world).outcome ≢ stuck)
    × (asks (execute plain_repr plain_digest moving look router no_world).acts ≤ 20)
execute-ends_example = execute-ends plain_repr plain_digest moving look router no_world

execute-OneAttempt_example :
    OneAttempt (execute plain_repr plain_digest moving make router no_world).acts
unfolding idempotent
execute-OneAttempt_example =
    execute-OneAttempt plain_repr plain_digest moving make router no_world refl

-- A session stands for the length of the host's name.
abbrev HasLength : Key → ℕ → Type 0
HasLength k s = length k.host ≡ s

dial_length-Made :
    (u : XRootDUrl) (c : Config) (s : ℕ)
    → connected (length u.host) ≡ connected s
    → HasLength (key_of plain_repr plain_digest u c) s
unfolding key_of
dial_length-Made u c s e = connected-injective (length u.host) s e

moving-Made :
    (i : ℕ) (u : XRootDUrl) (c : Config) (s : ℕ)
    → (moving i).dial u c ≡ connected s
    → HasLength (key_of plain_repr plain_digest u c) s
moving-Made zero u c s e = dial_length-Made u c s e
moving-Made (suc i) u c s e = dial_length-Made u c s e

execute-Made_example :
    RunMade plain_repr plain_digest HasLength ann
      (execute plain_repr plain_digest moving look router no_world)
execute-Made_example =
    execute-Made plain_repr plain_digest HasLength moving look router no_world moving-Made tt tt
