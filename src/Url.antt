-- ===== src/Url.antt =====
-- src/xrd/url.py: the parsed storage URL, and the form of its paths.
pub mod Normal
use py_xroot_dclient.Proto.Text.{join, split}
use py_xroot_dclient.Base.Int.{ℤ}
use py_xroot_dclient.Base.Text.{codes, member}
use py_xroot_dclient.Base.{
  Bytes, List, Bool, ◌∷◌, [], if◌then◌else◌, leb, ◌&&◌, ◌+◌, ◌==◌, bytes_eq, false, not, is_nil,
  drop, ◌++◌,
}

-- `scheme` and `host` are in lower case once `__post_init__` has run.
pub record XRootDUrl : Type 0 where
  pub scheme : Bytes
  pub host : Bytes
  pub port : ℤ
  pub path : Bytes
  pub username : Bytes
  pub password : Bytes
  pub query : List (Bytes × Bytes)

abbrev pub tls_schemes : List Bytes
tls_schemes = codes "roots" ∷ codes "xroots" ∷ codes "https" ∷ codes "davs" ∷ codes "s3" ∷ []

unfoldable pub use_tls : XRootDUrl → Bool
use_tls u = member u.scheme tls_schemes

-- `str.lower` on ASCII letters; other bytes stay.
unfoldable pub lower : Bytes → Bytes
lower [] = []
lower (b ∷ bs) = (if leb 65 b && leb b 90 then b + 32 else b) ∷ lower bs

-- `XRootDURL.evolve` with the scheme, the host and the port changed, and its `__post_init__`.
unfoldable pub evolve : XRootDUrl → Bytes → Bytes → ℤ → XRootDUrl
evolve u new_scheme new_host new_port = record u {
  scheme = lower new_scheme;
  host = lower new_host;
  port = new_port;
}

-- `text.lstrip('/')`
unfoldable pub lstrip : Bytes → Bytes
lstrip [] = []
lstrip (b ∷ bs) = let rest = lstrip bs in if b == 47 then rest else b ∷ bs

-- `text.endswith('/')`
unfoldable pub ends_slash : Bytes → Bool
ends_slash [] = false
ends_slash (b ∷ []) = b == 47
ends_slash (b ∷ c ∷ bs) = ends_slash (c ∷ bs)

-- A component in the loop of `posixpath.normpath` for an absolute path, on those kept, the last one
-- first: an empty one and `.` are left out, `..` takes the last one away.
unfoldable pub keep_component : List Bytes → Bytes → List Bytes
keep_component kept [] = kept
keep_component kept (b ∷ bs) =
    if bytes_eq (b ∷ bs) (46 ∷ [])
    then kept
    else if bytes_eq (b ∷ bs) (46 ∷ 46 ∷ [])
    then drop 1 kept
    else (b ∷ bs) ∷ kept

unfoldable pub keep_components : List Bytes → List Bytes → List Bytes
keep_components kept [] = kept
keep_components kept (c ∷ cs) = keep_components (keep_component kept c) cs

unfoldable pub turn_around : List Bytes → List Bytes → List Bytes
turn_around [] done = done
turn_around (c ∷ cs) done = turn_around cs (c ∷ done)

-- `posixpath.normpath` of a path with one slash in front.
unfoldable pub normpath : Bytes → Bytes
normpath path = 47 ∷ join 47 (turn_around (keep_components [] (split 47 path)) [])

-- `_normalize`
unfoldable pub normalize : Bytes → Bytes
normalize [] = 47 ∷ []
normalize (b ∷ bs) =
    let norm = normpath (47 ∷ lstrip (b ∷ bs)) in
    if ends_slash (b ∷ bs) && not (is_nil bs) && not (ends_slash norm)
    then norm ++ (47 ∷ [])
    else norm

-- `XRootDURL.with_path`
unfoldable pub with_path : XRootDUrl → Bytes → XRootDUrl
with_path u path = record u { path = normalize path }
