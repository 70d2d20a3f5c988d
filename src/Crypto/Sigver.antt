-- ===== src/Crypto/Sigver.antt =====
-- src/xrd/crypto/sigver.py: which requests are signed, and the signer of a connection. HMAC-SHA256
-- is Python's `hmac` and enters as a function of the key and the message.
pub mod Cover
pub mod Levels
use py_xroot_dclient.Base.Int.{ℤ, pos, negsuc}
use py_xroot_dclient.Errors.{Result, ◌>>=◌, ok, err, struct_error}
use py_xroot_dclient.Base.Dict.{get, Dict}
use py_xroot_dclient.Proto.Buffer.{of_be, to_signed, pack_unsigned}
use py_xroot_dclient.Base.{
  Bytes, ℕ, List, Bool, ◌∷◌, false, not, [], if◌then◌else◌, take, Option, some, ltb, is_nil, leb,
  length, ◌==◌, ◌+◌, ◌&&◌, ◌||◌, drop, ◌++◌, ◌-◌, none,
}
use py_xroot_dclient.Proto.Constants.{
  kxr_clone, kxr_prepare, kxr_dirlist, kxr_open, kxr_mkdir, kxr_locate, kxr_mv, kxr_write,
  kxr_secpedantic, kxr_1strequest, kxr_chkpoint, kxr_set, kxr_writev, kxr_rmdir, kxr_secnone,
  kxr_stat, kxr_rm, kxr_chmod, kxr_fattr, kxr_seccompatible, kxr_truncate, kxr_secintense,
  kxr_close, kxr_pgwrite, kxr_secstandard, request_hdrlen,
}

abbrev pub Hmac : Type 0
Hmac = Bytes → Bytes → Bytes

abbrev pub signed_opcodes : List ℕ
signed_opcodes =
    kxr_chmod ∷ kxr_fattr ∷ kxr_mkdir ∷ kxr_mv ∷ kxr_open ∷ kxr_pgwrite ∷ kxr_prepare ∷ kxr_rm
    ∷ kxr_rmdir ∷ kxr_set ∷ kxr_truncate ∷ kxr_write ∷ kxr_writev ∷ kxr_chkpoint ∷ kxr_clone ∷ []

unfoldable pub elem : ℕ → List ℕ → Bool
elem a [] = false
elem a (x ∷ xs) = a == x || elem a xs

-- `opcode in LEVEL_OPCODES.get(level, SIGNED_OPCODES)`
unfoldable pub in_level : ℕ → ℕ → Bool
in_level level opcode =
    if level == kxr_secnone
    then false
    else if level == kxr_seccompatible
    then false
    else if level == kxr_secstandard
    then elem opcode signed_opcodes
    else if level == kxr_secintense
    then elem opcode signed_opcodes
      || elem opcode (kxr_close ∷ kxr_dirlist ∷ kxr_locate ∷ kxr_stat ∷ [])
    else if level == kxr_secpedantic
    then leb kxr_1strequest opcode && ltb opcode (kxr_clone + 1)
    else elem opcode signed_opcodes

unfoldable pub is_signed_default : ℕ → ℕ → Bool
unfolding in_level
is_signed_default opcode level =
    if leb level kxr_seccompatible then false else in_level level opcode

unfoldable pub is_signed : ℕ → ℕ → Dict ℕ → Bool
unfolding is_signed_default get
is_signed opcode level overrides = elim (get overrides opcode) [
  | some o ↦ not (o == kxr_secnone)
  | none ↦ is_signed_default opcode level
]

unfoldable pub sigver_hmac : Hmac → Bytes → ℕ → Bytes → Bytes → Result Bytes
sigver_hmac hmac key seqno head body =
    pack_unsigned 8 seqno >>= λ n. ok (hmac key (n ++ (head ++ body)))

pub record Signer : Type 0 where
  pub key : Bytes
  pub level : ℕ
  pub overrides : Dict ℕ
  pub seqno : ℕ

unfoldable pub new_signer : Bytes → ℕ → Dict ℕ → Signer
new_signer key level overrides = record {
  key = key;
  level = level;
  overrides = overrides;
  seqno = 0;
}

unfoldable pub required : Signer → ℕ → Bool
required s opcode = not (is_nil s.key) && is_signed opcode s.level s.overrides

-- Where the slice `frame[24 : 24 + dlen]` ends, for a length of `frame`: an end below 0 counts
-- from the back.
slice_end : ℕ → ℤ → ℕ
slice_end len (pos n) = 24 + n
slice_end len (negsuc k) = if leb (k + 1) 24 then 24 - (k + 1) else len + 24 - (k + 1)

signed_part : Bytes → Bytes
unfolding slice_end of_be to_signed
signed_part frame =
    take (slice_end (length frame) (to_signed 4 (of_be 0 (take 4 (drop 20 frame)))) - 24)
      (drop request_hdrlen frame)

sign_required : Hmac → Bytes → Signer → Result (Option (ℕ × Bytes)) × Signer
unfolding sigver_hmac signed_part
sign_required hmac frame s =
    let n = s.seqno + 1 in
    if ltb (length frame) 24 then (err struct_error, record s { seqno = n }) else (
      (sigver_hmac hmac s.key n (take request_hdrlen frame) (signed_part frame) >>= λ mac.
          ok (some (n, mac))),
      record s { seqno = n },
    )

-- The signature of a frame, `none` if it needs none. `unpack_from` raises on a frame that is too
-- short; the sequence number has been advanced by then.
unfoldable pub sign : Hmac → Bytes → Signer → Result (Option (ℕ × Bytes)) × Signer
unfolding sign_required
sign hmac frame s =
    if ltb (length frame) 4
    then (err struct_error, s)
    else if required s (of_be 0 (take 2 (drop 2 frame)))
    then sign_required hmac frame s
    else (ok none, s)
