-- ===== src/Tests/Builders.antt =====
-- A truncation that runs in a checkpoint.
use py_xroot_dclient.Base.Text.{codes}
use py_xroot_dclient.Base.{[], ◌∷◌, refl, ◌≡◌, ◌++◌}
use py_xroot_dclient.Proto.Builders.{execute_checkpoint}
use py_xroot_dclient.Proto.Requests.{Request, chkpoint, payload, trailer, opcode, params, path_data}
use py_xroot_dclient.Proto.Frames.{encode, finish, header}
use py_xroot_dclient.Proto.Buffer.{
  u8, i64, padded, pad, zeros, pack_signed, be, u16, u32, raw, pack_unsigned,
}
use py_xroot_dclient.Proto.Constants.{kxr_ckpxeq}
use py_xroot_dclient.Crypto.Sigver.{elem}
use py_xroot_dclient.Client.Write.Trailers.{checkpoint_write-trailer}

-- A write of two bytes at 5 over data path 3, run in a checkpoint.
abbrev sealed : Request
sealed =
    chkpoint (codes "hndl") kxr_ckpxeq
      (0 ∷ 0 ∷ 11 ∷ 203 ∷ codes "hndl"
        ++ (0 ∷ 0 ∷ 0 ∷ 0 ∷ 0 ∷ 0 ∷ 0 ∷ 5 ∷ 3 ∷ 0 ∷ 0 ∷ 0 ∷ 0 ∷ 0 ∷ 0 ∷ 2 ∷ []))
      []

checkpoint_write-trailer_example : (trailer sealed ≡ []) × (path_data sealed ≡ [])
unfolding execute_checkpoint elem opcode encode finish header params payload trailer path_data i64
    u8 padded pad zeros pack_signed be u16 u32 raw pack_unsigned
checkpoint_write-trailer_example =
    checkpoint_write-trailer (codes "hndl") (codes "hndl") 5 (codes "xy") 3 sealed refl
