-- ===== src/Copy/Transfer.antt =====
-- `copy` of src/xrd/copy/engine.py: what it decides, over the functions of the module that reach
-- the two ends, which are told by their URL. An end that is an open stream has none.
pub mod Verified
use py_xroot_dclient.Base.{
  ℕ, Bytes, [], ◌∷◌, zero, suc, Bool, true, false, Option, none, some, List, if◌then◌else◌, not,
  ◌&&◌, bytes_eq,
}
use py_xroot_dclient.Url.{XRootDUrl, lower}
use py_xroot_dclient.Errors.{Result, ok, err, Error, checksum_mismatch, is_os_error}
use py_xroot_dclient.Client.Io.{Io, pure, raise, lift, ◌>>=◌, ◌>>◌, try_except}
use py_xroot_dclient.Copy.Plan.{Probe, is_local, divisible, continue_from, spread}

-- How the bytes are moved: from an offset on, over several workers, or in one stream that is
-- digested or not.
pub data Way : Type 0 where
  resumed : ℕ → Way
  -- workers, size
  spread_over : ℕ → ℕ → Way
  streamed : Bool → Way

-- What reaches the ends: `_probe`, the transfer itself, which returns the bytes moved and the
-- digest taken, `_server_checksum`, `_digest_of` and `_remove`.
pub record Storage : Type 1 where
  pub State : Type 0
  pub probe : XRootDUrl → State → Result Probe × State
  pub transfer : Option XRootDUrl → Option XRootDUrl → Way → State → Result (ℕ × Bytes) × State
  pub server_checksum : XRootDUrl → State → Result Bytes × State
  pub digest_of : XRootDUrl → State → Result Bytes × State
  pub remove : XRootDUrl → State → Result (Unit {0}) × State

-- The arguments of `copy`, and the settings that it reads.
pub record Order : Type 0 where
  pub source : Option XRootDUrl
  pub target : Option XRootDUrl
  pub chunk : ℕ
  pub parallel_chunks : ℕ
  pub verify : Option Bool
  pub verify_checksums : Bool
  pub overwrite : Bool
  pub dry_run : Bool
  pub remove_source : Bool
  pub resume : Bool

-- `CopyResult`, with the value of its checksum.
pub record CopyResult : Type 0 where
  pub size : ℕ
  pub checksum : Option Bytes
  pub resumed_at : ℕ

abbrev pub remote : Option XRootDUrl → Option XRootDUrl
remote none = none
remote (some u) = if is_local u then none else some u

-- `next((u for u in (dst_url, src_url) if u is not None and not u.is_local), None)`
unfoldable pub checkable : Order → Option XRootDUrl
checkable o = elim (remote o.target) [ some u ↦ some u | none ↦ remote o.source ]

unfoldable pub wanted : Order → Bool
wanted o = elim o.verify [ none ↦ o.verify_checksums | some v ↦ v ]

-- `verify is True`
abbrev pub strict : Order → Bool
strict o = elim o.verify [ none ↦ false | some v ↦ v ]

abbrev offset_of : Way → ℕ
offset_of (resumed n) = n
offset_of (spread_over workers size) = 0
offset_of (streamed digested) = 0

abbrev known_size : Probe → ℕ
known_size none = 0
known_size (some (size, at)) = size

-- Whether `_continue_from` comes to probe the target, and then the source.
abbrev may_resume : Order → Bool
may_resume o =
    o.overwrite
    && elim o.source [ none ↦ false | some s ↦ elim o.target [ none ↦ false | some t ↦ true ] ]

abbrev is_partial : Probe → Bool
is_partial none = false
is_partial (some (zero, at)) = false
is_partial (some (suc n, at)) = true

-- One stream, digested where a server can be asked to compare.
abbrev pub one_stream : Order → Way
one_stream o = streamed (wanted o && elim (checkable o) [ none ↦ false | some u ↦ true ])

module _ (S : Storage) where
  abbrev pub CopyOf : Type 0 → Type 0
  CopyOf A = Io S.State A

  abbrev probe_if : Option XRootDUrl → CopyOf Probe
  probe_if none = pure none
  probe_if (some u) = S.probe u

  -- `_spread`, with the probe that it makes, and one stream where it is not worth it.
  unfoldable pub divided : Order → CopyOf Way
  divided o = elim o.source [
    | none ↦ pure (one_stream o)
    | some s ↦ elim o.target [
      | none ↦ pure (one_stream o)
      | some t ↦ do
        known ← (if divisible s t then S.probe s else pure none)
        elim (spread (divisible s t) known o.parallel_chunks o.chunk) [
          | none ↦ pure (one_stream o)
          | some (workers, size) ↦ pure (spread_over workers size)
        ]
    ]
  ]

  -- `_continue_from`, with the probes that it makes, where the transfer is to be continued.
  unfoldable pub plan : Order → CopyOf Way
  plan o =
      if o.resume
      then (do
        there ← (if may_resume o then probe_if o.target else pure none)
        here ← (if is_partial there then probe_if o.source else pure none)
        start ← lift (continue_from o.source o.target o.overwrite there here)
        elim start [ some n ↦ pure (resumed n) | none ↦ divided o ])
      else divided o

  -- An end that cannot checksum: an error where the copy must be verified, and no checksum else.
  unfoldable pub if_possible : Bool → CopyOf (Option Bytes) → CopyOf (Option Bytes)
  if_possible must m = try_except m is_os_error (λ e. if must then raise e else pure none)

  abbrev same_or_raise : Bytes → Bytes → CopyOf (Option Bytes)
  same_or_raise ours theirs =
      if bytes_eq (lower theirs) (lower ours)
      then pure (some theirs)
      else raise (checksum_mismatch theirs)

  -- `_compare`
  unfoldable pub compare_with : Bool → XRootDUrl → Bytes → CopyOf (Option Bytes)
  compare_with must u ours = do
    asked ← if_possible must (do theirs ← S.server_checksum u; pure (some theirs))
    elim asked [ none ↦ pure none | some theirs ↦ same_or_raise ours theirs ]

  abbrev both_digests : XRootDUrl → XRootDUrl → CopyOf (Option (Bytes × Bytes))
  both_digests source target = do
    ours ← S.digest_of source
    theirs ← S.digest_of target
    let both : Bytes × Bytes = (ours, theirs)
    pure (some both)

  -- `_compare_ends`
  unfoldable pub compare_ends : Bool → XRootDUrl → XRootDUrl → CopyOf (Option Bytes)
  compare_ends must source target = do
    asked ←
        try_except (both_digests source target) is_os_error
          (λ e. if must then raise e else pure none)
    elim asked [
      | none ↦ pure none
      | some both ↦
          if bytes_eq both.0 both.1 then pure (some both.1) else raise (checksum_mismatch both.1)
    ]

  -- The verification, by how the bytes were moved.
  unfoldable pub verified : Order → Way → Bytes → CopyOf (Option Bytes)
  verified o (streamed true) digest = elim (checkable o) [
    | none ↦ pure none
    | some u ↦ compare_with (strict o) u digest
  ]
  verified o (streamed false) digest = pure none
  verified o way digest =
      if wanted o
      then elim o.source [
        | none ↦ pure none
        | some s ↦ elim o.target [ none ↦ pure none | some t ↦ compare_ends (strict o) s t ]
      ]
      else pure none

  unfoldable pub remove_if : Order → CopyOf (Unit {0})
  remove_if o = elim o.source [
    | none ↦ pure tt
    | some s ↦ if o.remove_source then S.remove s else pure tt
  ]

  -- `copy`
  unfoldable pub copy : Order → CopyOf CopyResult
  copy o =
      if o.dry_run
      then (do
        known ← probe_if o.source
        pure (record { size = known_size known; checksum = none; resumed_at = 0 }))
      else do
        way ← plan o
        moved ← S.transfer o.source o.target way
        checksum ← verified o way moved.1
        remove_if o
        pure (record { size = moved.0; checksum = checksum; resumed_at = offset_of way })
