-- ===== src/Session/Router/Tries.antt =====
-- How often `Router.execute` of src/xrd/session/router.py tries before it reports a lost connection.
use py_xroot_dclient.Session.World.{World}
use py_xroot_dclient.Config.{Config}
use py_xroot_dclient.Url.{XRootDUrl}
use py_xroot_dclient.Session.Router.{Dialled, Turn, Router, connected}
use py_xroot_dclient.Base.{Bytes, ℕ, ◌≡◌}
use py_xroot_dclient.Session.Identity.{Value}

module _ (repr : Value → Bytes) (sha256 : Bytes → Bytes) where
  -- Whatever server is dialled, it can be reached.
  abbrev pub CanDial : (ℕ → Turn) → Type 0
  CanDial turns =
      (i : ℕ) (u : XRootDUrl) (c : Config) → (s : ℕ) × ((turns i).dial u c ≡ connected s)

  abbrev IsConnected : Dialled → Type 0
  IsConnected d = (s : ℕ) × (d ≡ connected s)
