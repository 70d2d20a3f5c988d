-- ===== src/Proto/Builders.antt =====
-- The class methods of src/xrd/proto/requests.py that build a request of its parts.
use py_xroot_dclient.Proto.Frames.Layout.{encode-Layout, long_enough}
use py_xroot_dclient.Base.{
  ℕ, Bytes, Bool, [], ◌∷◌, ◌++◌, true, if◌then◌else◌, List, take, length, ◌≡◌, drop, ap, sym, ◌∙◌,
  take-append-drop, arith, length-take,
}
use py_xroot_dclient.Proto.Constants.{
  kxr_write, kxr_pgwrite, kxr_truncate, kxr_ckpxeq, kxr_fattrget, kxr_fattrdel, kxr_fattrset,
  kxr_fattrlist, kxr_fattrisnew, kxr_fattradata, kxr_fattrrecurse, request_hdrlen, kxr_chkpoint,
}
use py_xroot_dclient.Proto.Requests.{Request, opcode, chkpoint, fattr, payload, trailer}
use py_xroot_dclient.Proto.Frames.{encode}
use py_xroot_dclient.Proto.Buffer.{text_nul, u16, u32, raw}
use py_xroot_dclient.Crypto.Sigver.{elem}
use py_xroot_dclient.Errors.{
  Result, ok, err, ◌>>=◌, protocol_error, check-eq-ok, >>=-eq-ok, ok-injective,
}
use Prim.Native.Nat.{bit_or}

-- `ChkPoint.EXECUTABLE`
abbrev pub executable : List ℕ
executable = kxr_write ∷ kxr_pgwrite ∷ kxr_truncate ∷ []

-- `ChkPoint.execute`
unfoldable pub execute_checkpoint : Bytes → Request → Result Request
execute_checkpoint fhandle inner =
    if elem (opcode inner) executable
    then (encode inner 0 >>= λ frame.
        ok (chkpoint fhandle kxr_ckpxeq (take request_hdrlen frame) (drop request_hdrlen frame)))
    else err protocol_error

-- `Fattr._path_name`
unfoldable pub path_name : Bytes → Bytes → Result Bytes
path_name path name = text_nul path [] >>= λ w. u16 0 w >>= λ v. text_nul name v

-- `Fattr.get` and `Fattr.delete`
unfoldable pub fattr_get : Bytes → Bytes → Bytes → Result Request
fattr_get path name fhandle =
    path_name path name >>= λ body. ok (fattr kxr_fattrget body 1 0 fhandle)

unfoldable pub fattr_delete : Bytes → Bytes → Bytes → Result Request
fattr_delete path name fhandle =
    path_name path name >>= λ body. ok (fattr kxr_fattrdel body 1 0 fhandle)

-- `Fattr.set`
unfoldable pub fattr_set : Bytes → Bytes → Bytes → Bool → Bytes → Result Request
fattr_set path name value create_only fhandle = path_name path name >>= λ front.
    u32 (length value) [] >>= λ len. raw value len >>= λ back.
    ok (fattr kxr_fattrset (front ++ back) 1 (if create_only then kxr_fattrisnew else 0) fhandle)

-- `Fattr.list`
unfoldable pub fattr_list : Bytes → Bool → Bytes → Bool → Result Request
fattr_list path values fhandle recurse =
    let options =
      bit_or (if values then kxr_fattradata else 0) (if recurse then kxr_fattrrecurse else 0) in
    text_nul path [] >>= λ body. ok (fattr kxr_fattrlist body 0 options fhandle)

-- A request that is built to run another in a checkpoint is for a write, a page write or a
-- truncation, and carries the whole frame of that request under stream id 0: its first 24 bytes as
-- the payload that is counted, and the rest behind it.
pub execute_checkpoint-encode :
    (fhandle : Bytes) (inner outer : Request)
    → execute_checkpoint fhandle inner ≡ ok outer
    → (head : Bytes) × (payload outer ≡ ok head)
      × (encode inner 0 ≡ ok (head ++ trailer outer))
      × (length head ≡ 24)
      × (opcode outer ≡ kxr_chkpoint)
      × (elem (opcode inner) executable ≡ true)
unfolding execute_checkpoint payload trailer opcode
execute_checkpoint-encode fhandle inner outer e =
    let allowed = check-eq-ok (elem (opcode inner) executable) protocol_error _ e in
    let framed = >>=-eq-ok (encode inner 0) _ allowed.1 in
    let frame = framed.0 in
    let same = ok-injective _ outer framed.2 in
    (
      take 24 frame,
      ap payload (sym same),
      framed.1
          ∙ ap ok (sym (take-append-drop 24 frame))
          ∙ ap (λ (r : Request). ok (take 24 frame ++ trailer r)) same,
      omega (
        arith,
        length-take 24 frame,
        long_enough inner 0 frame (encode-Layout inner 0 frame framed.1),
      ),
      ap opcode (sym same),
      allowed.0,
    )
