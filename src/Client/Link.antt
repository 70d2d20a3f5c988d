-- ===== src/Client/Link.antt =====
-- What src/xrd/client/file.py asks of the `Router` under it and of that router's session. `Net` is
-- everything that lies beyond: the servers, the connections, the pool. A call returns its result or
-- what it raises, and the router and the net that it leaves.
use py_xroot_dclient.Base.{Bytes, Option, Bool, ℕ}
use py_xroot_dclient.Url.{XRootDUrl}
use py_xroot_dclient.Config.{Config}
use py_xroot_dclient.Errors.{Result}
use py_xroot_dclient.Proto.Requests.{Request}

pub record Link : Type 1 where
  pub Net : Type 0
  pub Router : Type 0
  -- `Router(url, config)`
  pub fresh : XRootDUrl → Config → Router
  -- `router.execute(request)`
  pub execute : Router → Request → Net → Result Bytes × Router × Net
  -- `router.session.execute(request, arrive_on_path=True)`
  pub direct : Router → Request → Net → Result Bytes × Router × Net
  -- `router.session.arrives_on_path`
  pub arrives : Router → Net → Result (Option Bool) × Router × Net
  pub bind_data_path : Router → Net → Result ℕ × Router × Net
  -- `router.pin(transfer=...)`: the pinned router
  pub pin : Bool → Router → Router
  pub close : Router → Net → Router × Net
  pub discard : Router → Net → Router × Net
