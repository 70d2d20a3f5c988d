-- ===== src/Crypto/Checksum.antt =====
-- src/xrd/crypto/checksum.py: the digests by name, and their incremental use. zlib's `adler32` and
-- `crc32` are parameters, and so are the objects of hashlib. The printing of a value is left out.
use py_xroot_dclient.Base.Cases.{on_bool}
use mathlib.Core.List.{append-nil}
use py_xroot_dclient.Base.{
  ℕ, Bytes, [], ◌∷◌, ◌++◌, ◌≡◌, ap, ◌∙◌, if◌then◌else◌, List, All, arith, bytes_eq, IsByte, ◌==◌,
  sym, refl,
}
use py_xroot_dclient.Base.Text.{codes, member}
use py_xroot_dclient.Url.{lower}
use py_xroot_dclient.Crypto.Crc32c.{crc32c, crc64, crc64nvme, poly_xz, poly_nvme}
use py_xroot_dclient.Crypto.Crc32c.Chaining.{crc32c-append, fold64-append, All-append}

-- `Step`: data folded into a running value.
abbrev pub Step : Type 0
Step = Bytes → ℕ → ℕ

pub record Checksum : Type 0 where
  pub name : Bytes
  pub current : ℕ
  pub step : Step
  pub width : ℕ

-- `Checksum.update`
unfoldable pub update : Bytes → Checksum → Checksum
update bs h = record h { current = h.step bs h.current }

-- `name.lower().replace("-", "")`
unfoldable pub without_dashes : Bytes → Bytes
without_dashes [] = []
without_dashes (b ∷ bs) = let rest = without_dashes bs in if b == 45 then rest else b ∷ rest

-- `_ALIASES.get(key, key)`
unfoldable pub canonical : Bytes → Bytes
canonical name =
    let key = without_dashes (lower name) in
    if bytes_eq key (codes "crc64xz") then codes "crc64" else key

abbrev pub hashlib_names : List Bytes
hashlib_names =
    codes "md5"
    ∷ codes "sha1"
    ∷ codes "sha224"
    ∷ codes "sha256"
    ∷ codes "sha384"
    ∷ codes "sha512"
    ∷ []

-- `hashlib.new(name)`, and the method `update` of its objects.
pub record Hashlib : Type 1 where
  pub Object : Type 0
  pub make : Bytes → Object
  pub fold : Bytes → Object → Object

-- `_HashlibChecksum`
pub record HashlibChecksum (H : Hashlib) : Type 0 where
  pub name : Bytes
  pub inner : H.Object

-- What `new` gives out, and that it raises for an unknown name.
pub data NewChecksum (H : Hashlib) : Type 0 where
  native : Checksum → NewChecksum H
  of_hashlib : HashlibChecksum H → NewChecksum H
  unknown : NewChecksum H

-- `_NATIVE`, in its order: the name, the step, the seed and the width.
unfoldable pub natives : Step → Step → List Checksum
natives adler32 crc32 =
    record { name = codes "adler32"; current = 1; step = adler32; width = 8 }
    ∷ record { name = codes "crc32"; current = 0; step = crc32; width = 8 }
    ∷ record { name = codes "crc32c"; current = 0; step = crc32c; width = 8 }
    ∷ record { name = codes "crc64"; current = 0; step = crc64; width = 16 }
    ∷ record { name = codes "crc64nvme"; current = 0; step = crc64nvme; width = 16 }
    ∷ []

module _ (H : Hashlib) where
  -- `_HashlibChecksum.__init__`
  unfoldable pub new_hashlib : Bytes → HashlibChecksum H
  new_hashlib key = record { name = key; inner = H.make key }

  -- `_HashlibChecksum.update`
  unfoldable pub update_hashlib : Bytes → HashlibChecksum H → HashlibChecksum H
  update_hashlib bs h = record h { inner = H.fold bs h.inner }

  -- `_NATIVE[key]`, or a digest of hashlib.
  unfoldable pub find_native : List Checksum → Bytes → NewChecksum H
  find_native [] key = if member key hashlib_names then of_hashlib (new_hashlib key) else unknown
  find_native (h ∷ hs) key =
      let rest = find_native hs key in if bytes_eq key h.name then native h else rest

  -- `new`
  unfoldable pub new_checksum : Step → Step → Bytes → NewChecksum H
  new_checksum adler32 crc32 name = find_native (natives adler32 crc32) (canonical name)

  -- `update` of whichever digest it is.
  unfoldable pub feed : Bytes → NewChecksum H → NewChecksum H
  feed bs (native h) = native (update bs h)
  feed bs (of_hashlib h) = of_hashlib (update_hashlib bs h)
  feed bs unknown = unknown

  -- The loop of `checksum_file`.
  unfoldable pub update_all : List Bytes → NewChecksum H → NewChecksum H
  update_all [] h = h
  update_all (c ∷ cs) h = update_all cs (feed c h)

-- All chunks, one behind the other.
abbrev pub joined : List Bytes → Bytes
joined [] = []
joined (c ∷ cs) = c ++ joined cs

-- A step that takes two pieces as it takes the whole.
abbrev pub Chains : Step → Type 0
Chains step =
    (xs ys : Bytes) (v : ℕ)
    → All IsByte xs
    → All IsByte ys
    → step (xs ++ ys) v ≡ step ys (step xs v)

natives-Chains :
    (adler32 crc32 : Step)
    → Chains adler32
    → Chains crc32
    → All (λ (h : Checksum). Chains h.step) (natives adler32 crc32)
unfolding natives crc64 crc64nvme
natives-Chains adler32 crc32 h k = (
  h,
  (
    k,
    (
      crc32c-append,
      (
        λ xs ys v p q. fold64-append poly_xz xs ys v (omega arith) p q,
        (λ xs ys v p q. fold64-append poly_nvme xs ys v (omega arith) p q, tt),
      ),
    ),
  ),
)

joined-bytes : (cs : List Bytes) → All (All IsByte) cs → All IsByte (joined cs)
joined-bytes [] h = tt
joined-bytes (c ∷ cs) (h, hs) = All-append c (joined cs) h (joined-bytes cs hs)

module _ (H : Hashlib)
    (folds : (xs ys : Bytes) (o : H.Object) → H.fold (xs ++ ys) o ≡ H.fold ys (H.fold xs o)) where
  -- A digest that takes two pieces as it takes the whole.
  abbrev FeedsOn : NewChecksum H → Type 0
  FeedsOn (native h) = Chains h.step
  FeedsOn (of_hashlib h) = Unit {0}
  FeedsOn unknown = Unit {0}

  find_native-FeedsOn :
      (hs : List Checksum) (key : Bytes)
      → All (λ (h : Checksum). Chains h.step) hs
      → FeedsOn (find_native H hs key)
  unfolding find_native
  find_native-FeedsOn [] key h = on_bool FeedsOn (member key hashlib_names) tt tt
  find_native-FeedsOn (x ∷ hs) key (h, hs_chain) =
      on_bool FeedsOn (bytes_eq key x.name) h (find_native-FeedsOn hs key hs_chain)

  feed-FeedsOn : (bs : Bytes) (d : NewChecksum H) → FeedsOn d → FeedsOn (feed H bs d)
  unfolding feed update
  feed-FeedsOn bs (native h) f = f
  feed-FeedsOn bs (of_hashlib h) f = tt
  feed-FeedsOn bs unknown f = tt

  feed-append :
      (xs ys : Bytes) (d : NewChecksum H)
      → FeedsOn d
      → All IsByte xs
      → All IsByte ys
      → feed H (xs ++ ys) d ≡ feed H ys (feed H xs d)
  unfolding feed update update_hashlib
  feed-append xs ys (native h) f p q =
      ap (λ (v : ℕ). native (record h { current = v })) (f xs ys h.current p q)
  feed-append xs ys (of_hashlib h) f p q =
      ap (λ (o : H.Object). of_hashlib (record h { inner = o })) (folds xs ys h.inner)
  feed-append xs ys unknown f p q = refl

  update_all-joined :
      (d : NewChecksum H) (c : Bytes) (cs : List Bytes)
      → FeedsOn d
      → All (All IsByte) (c ∷ cs)
      → update_all H (c ∷ cs) d ≡ feed H (joined (c ∷ cs)) d
  unfolding update_all
  update_all-joined d c [] f bytes = ap (λ (bs : Bytes). feed H bs d) (sym (append-nil c))
  update_all-joined d c (x ∷ cs) f (p, ps) =
      update_all-joined (feed H c d) x cs (feed-FeedsOn c d f) ps
      ∙ sym (feed-append c (joined (x ∷ cs)) d f p (joined-bytes (x ∷ cs) ps))

-- A digest that `new` gives out, of this library or of hashlib, fed with the chunks of a stream, is
-- the digest that it is when it is fed with the whole at once, however the stream is cut, if zlib's
-- functions chain and an object of hashlib that is fed twice is one that was fed both at once.
pub new_checksum-update_all :
    (H : Hashlib) (adler32 crc32 : Step) (name c : Bytes) (cs : List Bytes)
    → Chains adler32
    → Chains crc32
    → ((xs ys : Bytes) (o : H.Object) → H.fold (xs ++ ys) o ≡ H.fold ys (H.fold xs o))
    → All (All IsByte) (c ∷ cs)
    → update_all H (c ∷ cs) (new_checksum H adler32 crc32 name)
      ≡ feed H (joined (c ∷ cs)) (new_checksum H adler32 crc32 name)
unfolding new_checksum
new_checksum-update_all H adler32 crc32 name c cs a b folds bytes =
    update_all-joined H folds (find_native H (natives adler32 crc32) (canonical name)) c cs
      (find_native-FeedsOn H folds (natives adler32 crc32) (canonical name)
        (natives-Chains adler32 crc32 a b))
      bytes
