-- ===== src/Client/File.antt =====
-- `File` of src/xrd/client/file.py: the handle, its life, and how a request about it is run. An
-- offset is a natural number, as is the chunk size. `Int` flags are numbers with their bits.
pub mod Carried
pub mod Once
pub mod Kept
pub mod Answered
use py_xroot_dclient.Base.{
  ℕ, Bytes, [], ◌∷◌, zero, suc, ◌+◌, ◌-◌, ◌%◌, ◌++◌, Bool, true, false, Option, none, some, List,
  length, ◌==◌, if◌then◌else◌, not, ◌&&◌, ◌||◌, get_or, is_nil,
}
use py_xroot_dclient.Base.Int.{ℤ, pos, pos_part}
use py_xroot_dclient.Url.{XRootDUrl}
use py_xroot_dclient.Config.{Config}
use py_xroot_dclient.Errors.{Result, ok, value_error, is_transient, is_caught}
use py_xroot_dclient.Proto.Requests.{Request, open_file}
use py_xroot_dclient.Proto.Responses.Listing.{StatInfo}
use py_xroot_dclient.Proto.Responses.Opened.{parse_open}
use py_xroot_dclient.Client.Io.{Io, pure, raise, state, modify, lift, ◌>>=◌, ◌>>◌, try_except}
use py_xroot_dclient.Client.Link.{Link}
use Prim.Native.Nat.{bit_or, bit_and}

-- `_WRITING`: WRITE, UPDATE, NEW, DELETE and APPEND.
abbrev pub writing : ℕ
writing = 0x8000 + 0x0020 + 0x0008 + 0x0002 + 0x0200

pub record File (L : Link) : Type 0 where
  pub url : XRootDUrl
  pub config : Config
  pub router : L.Router
  pub owns_router : Bool
  pub handle : Option Bytes
  pub stat : Option StatInfo
  pub compression : ℤ × Bytes
  pub size_hint : ℤ
  pub flags : ℕ
  pub mode : ℕ
  pub checkpoint : Bool
  pub pathid : ℕ
  pub data_paths : List ℕ
  pub rr : ℕ
  pub multistream : Bool
  pub recoveries : ℕ

-- A file, and what lies beyond its router.
pub record Client (L : Link) : Type 0 where
  pub file : File L
  pub net : L.Net

-- `self._data_paths.remove(pathid)`, of a path that is there.
unfoldable pub remove_path : ℕ → List ℕ → List ℕ
remove_path p [] = []
remove_path p (q ∷ qs) = let rest = remove_path p qs in if q == p then qs else q ∷ rest

-- `XRootDURL.path_with_cgi`
unfoldable pub path_with_cgi : (List (Bytes × Bytes) → Bytes) → XRootDUrl → Bytes
path_with_cgi urlencode u = if is_nil u.query then u.path else u.path ++ (63 ∷ urlencode u.query)

module _ (L : Link) where
  -- `File(url, config, router=router)`
  unfoldable pub new_file : XRootDUrl → Config → Option L.Router → File L
  new_file u c given = record {
    url = u;
    config = c;
    router = elim given [ none ↦ L.fresh u c | some r ↦ r ];
    owns_router = elim given [ none ↦ true | some r ↦ false ];
    handle = none;
    stat = none;
    compression = (pos 0, []);
    size_hint = pos 0;
    flags = 0;
    mode = 0;
    checkpoint = false;
    pathid = 0;
    data_paths = [];
    rr = 0;
    multistream = true;
    recoveries = 0;
  }

  abbrev pub Method : Type 0 → Type 0
  Method A = Io (Client L) A

  unfoldable pub this : Method (File L)
  this = do c ← state; pure c.file

  unfoldable pub update : (File L → File L) → Method (Unit {0})
  update f = modify λ c. record c { file = f c.file }

  -- A call on `self._router`.
  unfoldable pub on_router :
      {A : Type 0} → (L.Router → L.Net → Result A × L.Router × L.Net) → Method A
  on_router call c =
      let out = call c.file.router c.net in
      (out.0, record { file = record c.file { router = out.1 }; net = out.2 })

  -- The property `handle`.
  unfoldable pub the_handle : Method Bytes
  the_handle = do f ← this; elim f.handle [ none ↦ raise value_error | some h ↦ pure h ]

  unfoldable pub bind_data_path : Method ℕ
  bind_data_path = do
    f ← this
    if f.pathid == 0
        then (do p ← on_router L.bind_data_path; update (λ g. record g { pathid = p }); pure p)
        else pure f.pathid

  -- The loop of `_bind_data_streams`.
  unfoldable pub bind_streams : ℕ → Method (Unit {0})
  bind_streams zero = pure tt
  bind_streams (suc n) = do
    p ← try_except (on_router L.bind_data_path) (λ e. true) (λ e. pure 0)
    if p == 0
        then pure tt
        else do update (λ f. record f { data_paths = f.data_paths ++ (p ∷ []) }); bind_streams n

  unfoldable pub bind_data_streams : Method (Unit {0})
  bind_data_streams = do
    f ← this
    bind_streams (pos_part f.config.data_streams - length f.data_paths)

  unfoldable pub next_path : Method ℕ
  next_path = do
    f ← this
    if not f.multistream || is_nil f.data_paths then pure 0 else do
      update (λ g. record g { rr = suc g.rr })
      pure (get_or f.data_paths (f.rr % length f.data_paths) 0)

  -- `router.close` and `router.discard` of a router that is let go of, where it is owned.
  unfoldable pub close_owned : Method (Unit {0})
  close_owned = do
    f ← this
    if f.owns_router
        then on_router (λ r n. let left = L.close r n in (ok tt, left.0, left.1))
        else pure tt

  unfoldable pub discard_owned : Method (Unit {0})
  discard_owned = do
    f ← this
    if f.owns_router
        then on_router (λ r n. let left = L.discard r n in (ok tt, left.0, left.1))
        else pure tt

  -- `recoverable`
  unfoldable pub recoverable : File L → Bool
  recoverable f = f.config.recover_handles && bit_and f.flags writing == 0

  -- A function that makes the request for a handle, and may read the file and raise.
  abbrev pub Build : Type 0
  Build = File L → Bytes → Result Request

  -- `self._router.execute(build(handle))`
  unfoldable pub ask_router : Build → Bytes → Method Bytes
  ask_router build h = do f ← this; request ← lift (build f h); on_router (λ r. L.execute r request)

  -- A function that makes the request for a handle and a path id.
  abbrev pub BuildOn : Type 0
  BuildOn = Bytes → ℕ → Request

  abbrev on_path : BuildOn → ℕ → Build
  on_path build p f h = ok (build h p)

  abbrev on_own_path : BuildOn → Build
  on_own_path build f h = ok (build h f.pathid)

module _ (L : Link) (urlencode : List (Bytes × Bytes) → Bytes) where
  -- `_do_open`
  unfoldable pub do_open : Method L Bytes
  do_open = do
    f ← this L
    body ← on_router L (λ r.
        L.execute r (open_file (path_with_cgi urlencode f.url) (bit_or f.flags 0x0400) f.mode))
    update L (λ g. record g { router = L.pin g.owns_router g.router })
    opened ← lift (parse_open body f.url.path)
    update L (λ g. record g {
      handle = some opened.fhandle;
      stat = opened.stat;
      compression = opened.compression;
      size_hint = elim opened.stat [ none ↦ g.size_hint | some info ↦ info.st_size ];
    })
    pure opened.fhandle

  -- `open`, on flags and a mode that are numbers already.
  unfoldable pub open_as : ℕ → ℕ → Method L (Option StatInfo)
  open_as new_flags new_mode = do
    f ← this L
    elim f.handle [
      | some h ↦ raise value_error
      | none ↦ do
        update L (λ g. record g { flags = new_flags; mode = new_mode })
        try_except (do do_open; bind_data_streams L) (λ e. true) (λ e. do close_owned L; raise e)
        g ← this L
        pure g.stat
    ]

  -- `_reopen`
  unfoldable pub reopen : Method L Bytes
  reopen = do
    update L (λ f. record f {
      handle = none;
      stat = none;
      pathid = 0;
      data_paths = [];
      rr = 0;
      multistream = true;
    })
    discard_owned L
    update L (λ f. record f {
      router = L.fresh f.url f.config;
      owns_router = true;
      recoveries = suc f.recoveries;
    })
    h ← do_open
    bind_data_streams L
    pure h

  -- `_execute`
  unfoldable pub execute : Build L → Method L Bytes
  execute build =
      try_except (do h ← the_handle L; ask_router L build h) is_transient
        (λ e. do
          f ← this L
          if recoverable L f then (do h ← reopen; ask_router L build h) else raise e)

  -- `_bulk` from its second `try` on: the request on the control link, the bytes on the path.
  unfoldable pub bulk_split : BuildOn L → ℕ → Method L Bytes
  bulk_split build p = try_except (execute (on_path L build p)) is_caught (λ e. do
    f ← this L
    elim f.handle [
      | none ↦ raise e
      | some h ↦ do update L (λ g. record g { multistream = false }); execute (on_path L build 0)
    ])

  -- `_bulk` from its first `try` on: everything on the path.
  unfoldable pub bulk_direct : BuildOn L → ℕ → Method L Bytes
  bulk_direct build p =
      try_except (do h ← the_handle L; on_router L (λ r. L.direct r (build h p))) is_caught
        (λ e. do
          update L (λ f. record f { data_paths = remove_path p f.data_paths })
          bind_data_streams L
          q ← next_path L
          if q == 0 then execute (on_path L build 0) else bulk_split build q)

  -- `_bulk`
  unfoldable pub bulk : BuildOn L → Method L Bytes
  bulk build = do
    p ← next_path L
    f ← this L
    if p == 0 || f.checkpoint then execute (on_own_path L build) else do
      served ← on_router L L.arrives
      elim served [
        | some false ↦ bulk_split build p
        | some true ↦ bulk_direct build p
        | none ↦ bulk_direct build p
      ]
