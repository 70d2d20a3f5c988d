-- ===== src/Copy/Plan.antt =====
-- The decisions of src/xrd/copy/engine.py before a transfer: where to continue one, how many
-- connections it is worth, and the spans they move. A probe is the size and the time of change.
pub mod Spans
use py_xroot_dclient.Base.{
  ℕ, Bytes, [], ◌∷◌, zero, suc, ◌+◌, ◌-◌, ◌/◌, Bool, true, false, Option, none, some, List, ◌==◌,
  if◌then◌else◌, not, ◌&&◌, ◌||◌, is_nil, ltb, leb, min, bytes_eq,
}
use py_xroot_dclient.Base.Text.{codes, member}
use py_xroot_dclient.Url.{XRootDUrl}
use py_xroot_dclient.Errors.{Result, ok, err, value_error}

-- `(size, mtime)`
abbrev pub Probe : Type 0
Probe = Option (ℕ × ℕ)

-- `XRootDURL.is_local`, `is_root` and `is_http`
unfoldable pub is_local : XRootDUrl → Bool
is_local u = bytes_eq u.scheme (codes "file")

unfoldable pub is_root : XRootDUrl → Bool
is_root u =
    member u.scheme
      (codes "root" ∷ codes "roots" ∷ codes "xroot" ∷ codes "xroots" ∷ codes "xrootd" ∷ [])

unfoldable pub is_http : XRootDUrl → Bool
is_http u =
    member u.scheme
      (codes "http" ∷ codes "https" ∷ codes "dav" ∷ codes "davs" ∷ codes "webdav" ∷ [])

-- `_divisible`
unfoldable pub divisible : XRootDUrl → XRootDUrl → Bool
divisible source target =
    (is_local target || is_root target) && (is_local source || is_root source || is_http source)

-- `_continue_from`, of what the two probes would say: the offset to continue from.
unfoldable pub continue_from :
    Option XRootDUrl → Option XRootDUrl → Bool → Probe → Probe → Result (Option ℕ)
continue_from (some source) (some target) true none here = ok none
continue_from (some source) (some target) true (some (zero, at)) here = ok none
continue_from (some source) (some target) true (some (suc n, at)) none = ok (some (suc n))
continue_from (some source) (some target) true (some (suc n, at)) (some (size, _)) =
    if ltb size (suc n) then err value_error else ok (some (suc n))
continue_from _ _ _ there here = err value_error

-- `_spread`, for a pair that can be divided: the number of workers and the size.
unfoldable pub spread : Bool → Probe → ℕ → ℕ → Option (ℕ × ℕ)
spread may none parallel chunk = none
spread may (some (size, at)) parallel chunk =
    let workers = min parallel (size / chunk) in
    if may && ltb 1 workers then some (workers, size) else none

-- `range(0, size, step)`, on fuel, from an offset on.
unfoldable pub spans_from : ℕ → ℕ → ℕ → ℕ → List (ℕ × ℕ)
spans_from zero size step offset = []
spans_from (suc fuel) size step offset =
    let later = spans_from fuel size step (offset + step) in
    if ltb offset size then (offset, min step (size - offset)) ∷ later else []

-- `_spans`; `-(-size // workers)` is rounded up, and a span takes a byte at least.
unfoldable pub spans : ℕ → ℕ → List (ℕ × ℕ)
spans size workers = spans_from size size ((size + (workers - 1)) / workers) 0

-- `_up_to_date`, of what the probes say and whether the digests of the two agree.
pub data SyncMode : Type 0 where
  by_size by_mtime by_checksum : SyncMode

unfoldable pub up_to_date : SyncMode → Probe → Probe → Bool → Bool
up_to_date mode (some (theirs, changed)) (some (ours, made)) same_digest =
    theirs == ours
    && elim mode [ by_size ↦ true | by_mtime ↦ leb made changed | by_checksum ↦ same_digest ]
up_to_date mode _ _ same_digest = false

abbrev matches_any : (Bytes → Bytes → Bool) → Bytes → List Bytes → Bool
matches_any fnmatch rel [] = false
matches_any fnmatch rel (p ∷ ps) = fnmatch rel p || matches_any fnmatch rel ps

-- `_selected`, with `fnmatch` as a parameter
unfoldable pub selected : (Bytes → Bytes → Bool) → Bytes → List Bytes → List Bytes → Bool
selected fnmatch rel include exclude =
    (is_nil include || matches_any fnmatch rel include) && not (matches_any fnmatch rel exclude)

-- `_prune`: what is removed of what `_walk` finds, in this order.
unfoldable pub pruned : List Bytes → List Bytes → List Bytes
pruned keep [] = []
pruned keep (rel ∷ found) =
    let later = pruned keep found in if member rel keep then later else rel ∷ later
