-- ===== src/Copy/Transfer/Verified.antt =====
-- What stands behind a copy that src/xrd/copy/engine.py reports.
use py_xroot_dclient.Base.{
  ℕ, Bool, Option, none, some, if◌then◌else◌, Bytes, ◌≡◌, bytes_eq, true, false,
}
use py_xroot_dclient.Errors.{Result, ok, err, Error, checksum_mismatch}
use py_xroot_dclient.Url.{XRootDUrl, lower}
use py_xroot_dclient.Client.Io.{
  Io, Triple, Ends, chain, guarded, on_pure, on_raise, on_either, on_lift, raised_of, pure, raise,
  ◌>>=◌,
}
use py_xroot_dclient.Copy.Plan.{divisible, spread, continue_from}
use py_xroot_dclient.Copy.Transfer.{
  Storage, Order, Way, resumed, spread_over, plan, CopyOf, divided, probe_if, may_resume,
  one_stream, is_partial, compare_ends, remove_if, wanted, if_possible, copy, verified,
  compare_with, streamed, same_or_raise, strict, checkable,
}

module _ (S : Storage) (J : S.State → Type 0)
    (probes : (u : XRootDUrl) (s : S.State) → J s → J (S.probe u s).1)
    (transfers : (a b : Option XRootDUrl) (w : Way) (s : S.State) → J s → J (S.transfer a b w s).1)
    (checksums : (u : XRootDUrl) (s : S.State) → J s → J (S.server_checksum u s).1)
    (digests : (u : XRootDUrl) (s : S.State) → J s → J (S.digest_of u s).1) where
  abbrev Still : {A : Type 0} → CopyOf S A → Type 0
  Still m = Triple J m (λ a. J) (λ e. J)

  kept_by : {A : Type 0} (m : Io S.State A) → ((s : S.State) → J s → J (m s).1) → Still m
  kept_by {A} m h = record { ends = λ s j. both (m s) (h s j) }
    where
      both : (out : Result A × S.State) → J out.1 → Ends (λ a. J) (λ e. J) out
      both (ok a, t) j = j
      both (err e, t) j = j

  same : {A : Type 0} (a : A) → Still (pure a)
  same a = on_pure a λ s j. j

  probe_if-Still : (o : Option XRootDUrl) → Still (probe_if S o)
  probe_if-Still none = same none
  probe_if-Still (some u) = kept_by (S.probe u) (probes u)

  divided-Still : (o : Order) → Still (divided S o)
  unfolding divided
  divided-Still o = ends_of o.source o.target
    where
      chosen :
          (c : Option (ℕ × ℕ))
          → Still (elim c [
            | none ↦ pure (one_stream o)
            | some (workers, size) ↦ pure (spread_over workers size)
          ])
      chosen none = same (one_stream o)
      chosen (some (workers, size)) = same (spread_over workers size)

      ends_of :
          (a b : Option XRootDUrl)
          → Still (elim a [
            | none ↦ pure (one_stream o)
            | some s ↦ elim b [
              | none ↦ pure (one_stream o)
              | some t ↦ (if divisible s t then S.probe s else pure none) >>= λ known.
                  elim (spread (divisible s t) known o.parallel_chunks o.chunk) [
                    | none ↦ pure (one_stream o)
                    | some (workers, size) ↦ pure (spread_over workers size)
                  ]
            ]
          ])
      ends_of none b = same (one_stream o)
      ends_of (some s) none = same (one_stream o)
      ends_of (some s) (some t) =
          chain (on_either (divisible s t) (λ _. kept_by (S.probe s) (probes s)) (λ _. same none))
            λ known. chosen _

  plan-Still : (o : Order) → Still (plan S o)
  unfolding plan
  plan-Still o =
      on_either o.resume
        (λ _.
          chain (on_either (may_resume o) (λ _. probe_if-Still o.target) (λ _. same none)) λ there.
            chain (on_either (is_partial there) (λ _. probe_if-Still o.source) (λ _. same none))
              λ here.
                chain
                  (on_lift (continue_from o.source o.target o.overwrite there here) (λ a s j e. j)
                    (λ x s j e. j))
                  λ start. from start)
        (λ _. divided-Still o)
    where
      from :
          (start : Option ℕ) → Still (elim start [ some n ↦ pure (resumed n) | none ↦ divided S o ])
      from none = divided-Still o
      from (some n) = same (resumed n)

  may_fail :
      {A : Type 0} (must : Bool) (e : Error)
      → Still {A = Option A} (if must then raise e else pure none)
  may_fail must e = on_either must (λ _. on_raise e λ s j. j) (λ _. same none)

  if_possible-Still :
      (must : Bool) (m : CopyOf S (Option Bytes))
      → Still m
      → Still {A = Option Bytes} (if_possible S must m)
  unfolding if_possible
  if_possible-Still must m h = guarded h (λ e s j _. j) λ e _. may_fail must e

  same_or_raise-Still : (ours theirs : Bytes) → Still (same_or_raise S ours theirs)
  same_or_raise-Still ours theirs =
      on_either (bytes_eq (lower theirs) (lower ours)) (λ _. same (some theirs))
        (λ _. on_raise _ λ s j. j)

  compare_with-Still :
      (must : Bool) (u : XRootDUrl) (ours : Bytes) → Still (compare_with S must u ours)
  unfolding compare_with
  compare_with-Still must u ours =
      chain
        (if_possible-Still must _
          (chain (kept_by (S.server_checksum u) (checksums u)) λ theirs. same (some theirs)))
        λ asked. told asked
    where
      told :
          (asked : Option Bytes)
          → Still {A = Option Bytes}
              (elim asked [ none ↦ pure none | some theirs ↦ same_or_raise S ours theirs ])
      told none = same none
      told (some theirs) = same_or_raise-Still ours theirs

  compare_ends-Still : (must : Bool) (a b : XRootDUrl) → Still (compare_ends S must a b)
  unfolding compare_ends
  compare_ends-Still must a b =
      chain
        (guarded
          (chain (kept_by (S.digest_of a) (digests a))
            λ ours. chain (kept_by (S.digest_of b) (digests b)) λ theirs. same _)
          (λ e s j _. j) (λ e _. may_fail must e))
        λ asked. told asked
    where
      told :
          (asked : Option (Bytes × Bytes))
          → Still {A = Option Bytes} (elim asked [
            | none ↦ pure none
            | some both ↦
                if bytes_eq both.0 both.1
                then pure (some both.1)
                else raise (checksum_mismatch both.1)
          ])
      told none = same none
      told (some both) =
          on_either (bytes_eq both.0 both.1) (λ _. same (some both.1)) (λ _. on_raise _ λ s j. j)

  both_ends :
      (o : Order)
      → Still {A = Option Bytes} (
          if wanted o
          then elim o.source [
            | none ↦ pure none
            | some s ↦ elim o.target [ none ↦ pure none | some t ↦ compare_ends S (strict o) s t ]
          ]
          else pure none)
  both_ends o = on_either (wanted o) (λ _. ends_of o.source o.target) (λ _. same none)
    where
      ends_of :
          (a b : Option XRootDUrl)
          → Still {A = Option Bytes} (elim a [
            | none ↦ pure none
            | some s ↦ elim b [ none ↦ pure none | some t ↦ compare_ends S (strict o) s t ]
          ])
      ends_of none b = same none
      ends_of (some s) none = same none
      ends_of (some s) (some t) = compare_ends-Still (strict o) s t

  verified-Still : (o : Order) (way : Way) (digest : Bytes) → Still (verified S o way digest)
  unfolding verified
  verified-Still o (streamed true) digest = asked (checkable o)
    where
      asked :
          (u : Option XRootDUrl)
          → Still {A = Option Bytes}
              (elim u [ none ↦ pure none | some v ↦ compare_with S (strict o) v digest ])
      asked none = same none
      asked (some v) = compare_with-Still (strict o) v digest
  verified-Still o (streamed false) digest = same none
  verified-Still o (resumed n) digest = both_ends o
  verified-Still o (spread_over workers size) digest = both_ends o

  abbrev LostIfDone : {A : Type 0} → CopyOf S A → Type 0
  LostIfDone m = Triple J m (λ a t. Unit) (λ e. J)

  module _
      (removes : (u : XRootDUrl) (s : S.State)
        → J s
        → Ends (λ a t. Unit) (λ e. J) (S.remove u s)) where
    remove_if-LostIfDone : (o : Order) → LostIfDone (remove_if S o)
    unfolding remove_if
    remove_if-LostIfDone o = of_source o.source
      where
        of_source :
            (a : Option XRootDUrl)
            → LostIfDone {A = Unit {0}} (elim a [
              | none ↦ pure tt
              | some s ↦ if o.remove_source then S.remove s else pure tt
            ])
        of_source none = on_pure tt λ s j. tt
        of_source (some u) =
            on_either o.remove_source (λ _. record { ends = removes u }) (λ _. on_pure tt λ s j. tt)

    pub copy-LostIfDone : (o : Order) → LostIfDone (copy S o)
    unfolding copy
    copy-LostIfDone o =
        on_either o.dry_run (λ _. chain (probe_if-Still o.source) λ known. on_pure _ λ s j. tt)
          (λ _. chain (plan-Still o) λ way.
            chain (kept_by (S.transfer o.source o.target way) (transfers o.source o.target way))
              λ moved.
                chain (verified-Still o way moved.1)
                  λ checksum. chain (remove_if-LostIfDone o) λ _. on_pure _ λ s j. tt)

-- A copy that raises has removed nothing: what the probes, the transfer and the checksums keep, and
-- a removal that fails, is kept by the whole, whichever way the bytes went and wherever it failed,
-- at the comparison of the checksums too.
pub copy_raised-keeps :
    (S : Storage) (J : S.State → Type 0)
    → ((u : XRootDUrl) (s : S.State) → J s → J (S.probe u s).1)
    → ((a b : Option XRootDUrl) (w : Way) (s : S.State) → J s → J (S.transfer a b w s).1)
    → ((u : XRootDUrl) (s : S.State) → J s → J (S.server_checksum u s).1)
    → ((u : XRootDUrl) (s : S.State) → J s → J (S.digest_of u s).1)
    → ((u : XRootDUrl) (s : S.State) → J s → Ends (λ a t. Unit) (λ e. J) (S.remove u s))
    → (o : Order) (s : S.State) → J s
    → {e : Error} → (copy S o s).0 ≡ err e
    → J (copy S o s).1
copy_raised-keeps S J probes transfers checksums digests removes o s j e =
    raised_of (copy-LostIfDone S J probes transfers checksums digests removes o) s j e
