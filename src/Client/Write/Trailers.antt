-- ===== src/Client/Write/Trailers.antt =====
-- What travels with a write that src/xrd/client/file.py runs in a checkpoint.
use mathlib.Core.List.{append-nil}
use py_xroot_dclient.Base.{ℕ, Bytes, [], ◌++◌, ◌≡◌, sym, ap, ◌∙◌, ◌==◌, if◌then◌else◌, drop_front}
use py_xroot_dclient.Base.Int.{pos}
use py_xroot_dclient.Errors.{ok, ok-injective}
use py_xroot_dclient.Proto.Requests.{Request, write, trailer, path_data, payload}
use py_xroot_dclient.Proto.Builders.{execute_checkpoint, execute_checkpoint-encode}
use py_xroot_dclient.Proto.Frames.Layout.{encode-Layout, frame_split}
use py_xroot_dclient.Client.Write.Checkpoints.{executed_form}

-- A write that is run in a checkpoint takes its bytes along behind the frame if it names no data
-- path. If it names one it takes none of them along, neither there nor on the path.
pub checkpoint_write-trailer :
    (fhandle h : Bytes) (at : ℕ) (body : Bytes) (p : ℕ) (outer : Request)
    → execute_checkpoint fhandle (write h (pos at) body p) ≡ ok outer
    → (trailer outer ≡ (if p == 0 then body else [])) × (path_data outer ≡ [])
unfolding payload trailer path_data
checkpoint_write-trailer fhandle h at body p outer e =
    let inner : Request = write h (pos at) body p in
    let made = execute_checkpoint-encode fhandle inner outer e in
    let frame : Bytes = made.0 ++ trailer outer in
    let lay = encode-Layout inner 0 frame made.2 in
    let form = executed_form fhandle inner outer e in
    (
      sym (drop_front 24 made.0 (trailer outer) made.3)
          ∙ frame_split inner 0 frame lay
          ∙ append-nil lay.body
          ∙ sym (ok-injective _ lay.body lay.body_from),
      ap path_data form.2,
    )
