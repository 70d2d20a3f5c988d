-- ===== src/Tests/Journal/Server.antt =====
-- A server in memory that runs the frame of a write that src/xrd/client/file.py hands it in a
-- checkpoint.
use py_xroot_dclient.Base.{
  ℕ, Bytes, [], ◌∷◌, ◌++◌, ◌≡◌, ◌≤◌, ◌<◌, ◌%◌, ◌^◌, ◌==◌, if◌then◌else◌, take, drop, length, refl,
  sym, ap, ◌∙◌, subst, arith, none, take-length, drop-length, length-append, take-append-drop,
  replicate,
}
use mathlib.Core.List.{append_assoc, append-nil}
use py_xroot_dclient.Base.Int.{pos}
use py_xroot_dclient.Errors.{
  ◌>>=◌, Result, ok, err, value_error, ok-injective, >>=-eq-ok, check-eq-ok, protocol_error,
}
use py_xroot_dclient.Proto.Constants.{kxr_write}
use py_xroot_dclient.Proto.Buffer.{
  append_packed, of_be, be, pack_unsigned, pack_signed, Writer, u8, i64, padded, zeros, pad,
}
use py_xroot_dclient.Proto.Buffer.RoundTrip.{length-be, of_be-be, length-pad}
use py_xroot_dclient.Proto.Requests.{Request, write, chkpoint, params, payload, opcode, trailer}
use py_xroot_dclient.Proto.Frames.{encode}
use py_xroot_dclient.Proto.Frames.Layout.{encode-Layout, Layout, frame_split, read_opcode}
use py_xroot_dclient.Proto.Builders.{execute_checkpoint}
use py_xroot_dclient.Client.Link.{Link}
use py_xroot_dclient.Client.File.Carried.{Leaves}
use py_xroot_dclient.Client.Server.{splice}

-- The frame of a write is run, and no other.
abbrev run : Bytes → Bytes → Bytes
run frame c =
    if of_be 0 (take 2 (drop 2 frame)) == kxr_write
    then splice (of_be 0 (take 8 (drop 8 frame))) (drop 24 frame) c
    else c

abbrev answer : Request → Bytes → Result Bytes × Unit {0} × Bytes
answer (chkpoint h code head tail) c = (ok [], tt, run (head ++ tail) c)
answer _ c = (err value_error, tt, c)

abbrev pub journal : Link
journal = record {
  Net = Bytes;
  Router = Unit {0};
  fresh = λ u c. tt;
  execute = λ r request n. answer request n;
  direct = λ r request n. answer request n;
  arrives = λ r n. (ok none, tt, n);
  bind_data_path = λ r n. (ok 1, tt, n);
  pin = λ t r. tt;
  close = λ r n. (tt, n);
  discard = λ r n. (tt, n);
}

-- A write that has no frame is never sent.
abbrev without_frame : Request → Bytes → Bytes
without_frame (write h (pos o) bs p) c = splice o bs c
without_frame _ c = c

abbrev run_encoded : Result Bytes → Request → Bytes → Bytes
run_encoded (ok frame) inner c = run frame c
run_encoded (err e) inner c = without_frame inner c

abbrev pub effect : Request → Bytes → Bytes
effect inner c = run_encoded (encode inner 0) inner c

pub journal_runs :
    (inner outer : Request) (h : Bytes) (r : Unit {0}) (n : Bytes)
    → execute_checkpoint h inner ≡ ok outer
    → Leaves (λ b (m : Bytes). m ≡ effect inner n) (λ m. Unit) (answer outer n)
unfolding execute_checkpoint
journal_runs inner outer h r n e =
    let allowed = check-eq-ok _ protocol_error _ e in
    let framed = >>=-eq-ok (encode inner 0) _ allowed.1 in
    subst (λ (q : Request). Leaves (λ b (m : Bytes). m ≡ effect inner n) (λ m. Unit) (answer q n))
      (ok-injective _ outer framed.2)
      (ap (λ (f : Bytes). run f n) (take-append-drop 24 framed.0)
        ∙ ap (λ (t : Result Bytes). run_encoded t inner n) (sym framed.1))

packed_offset : (o : ℕ) (bs : Bytes) → pack_signed 8 (pos o) ≡ ok bs → (o < 256 ^ 8) × (bs ≡ be 8 o)
unfolding pack_signed
packed_offset o bs h = ground arith

one_zero : u8 0 ≡ λ w. ok (w ++ (0 ∷ []))
unfolding u8 pack_unsigned be
one_zero = refl

params_of_write :
    (k : Bytes) (o : ℕ) (bs ps : Bytes)
    → params (write k (pos o) bs 0) [] ≡ ok ps
    → (o < 256 ^ 8) × (ps ≡ pad k 4 ++ (be 8 o ++ replicate 4 0))
unfolding params padded i64 zeros
params_of_write k o bs ps e = packed (pack_signed 8 (pos o)) refl (
    subst
      (λ (f : Writer → Result Writer).
        (append_packed (pack_signed 8 (pos o)) (pad k 4) >>= f >>= zeros 3) ≡ ok ps)
      one_zero e)
  where
    packed :
        (t : Result Bytes)
        → pack_signed 8 (pos o) ≡ t
        → (append_packed t (pad k 4) >>= (λ w. ok (w ++ (0 ∷ []))) >>= zeros 3) ≡ ok ps
        → (o < 256 ^ 8) × (ps ≡ pad k 4 ++ (be 8 o ++ replicate 4 0))
    packed (ok b) q e =
        let (fits, same) = packed_offset o b q in
        (
          fits,
          sym (ok-injective _ ps e)
              ∙ append_assoc (pad k 4 ++ b) (0 ∷ []) (replicate 3 0)
              ∙ append_assoc (pad k 4) b (replicate 4 0)
              ∙ ap (λ (x : Bytes). pad k 4 ++ (x ++ replicate 4 0)) same,
        )
    packed (err x) q e = absurd (cc)

drop_at : (n : ℕ) (xs ys : Bytes) → length xs ≡ n → drop n (xs ++ ys) ≡ ys
drop_at n xs ys e = rw (sym e) (drop-length xs ys)

take_at : (n : ℕ) (xs ys : Bytes) → length xs ≡ n → take n (xs ++ ys) ≡ xs
take_at n xs ys e = rw (sym e) (take-length xs ys)

number_at :
    (front more : Bytes) (o : ℕ)
    → length front ≡ 8
    → o < 256 ^ 8
    → of_be 0 (take 8 (drop 8 (front ++ (be 8 o ++ more)))) ≡ o
number_at front more o e fits =
    rw
      (
        drop_at 8 front (be 8 o ++ more) e,
        take_at 8 (be 8 o) more (length-be 8 o),
        of_be-be 8 o 0 fits,
      )
      (omega arith)

regroup :
    (a b c d e f g : Bytes)
    → (((a ++ b) ++ (c ++ (d ++ e))) ++ f) ++ g ≡ ((a ++ b) ++ c) ++ (d ++ (e ++ (f ++ g)))
regroup a b c d e f g = simp append_assoc

offset_of :
    (k : Bytes) (o : ℕ) (bs frame : Bytes)
    → Layout (write k (pos o) bs 0) 0 frame
    → of_be 0 (take 8 (drop 8 frame)) ≡ o
offset_of k o bs frame l =
    let (fits, e) = params_of_write k o bs l.ps l.ps_from in
    rw (l.bytes, e)
      (ap (λ (f : Bytes). of_be 0 (take 8 (drop 8 f)))
          (regroup (be 2 (0 % 2 ^ 16)) (be 2 (opcode (write k (pos o) bs 0))) (pad k 4) (be 8 o)
            (replicate 4 0) _ _)
        ∙ number_at ((be 2 (0 % 2 ^ 16) ++ be 2 (opcode (write k (pos o) bs 0))) ++ pad k 4) _ o
            (omega (
              arith,
              length-append (be 2 (0 % 2 ^ 16) ++ be 2 (opcode (write k (pos o) bs 0))) (pad k 4),
              length-append (be 2 (0 % 2 ^ 16)) (be 2 (opcode (write k (pos o) bs 0))),
              length-be 2 (0 % 2 ^ 16),
              length-be 2 (opcode (write k (pos o) bs 0)),
              length-pad k 4,
            ))
            fits)

pub journal_writes :
    (k : Bytes) (o : ℕ) (bs c : Bytes)
    → 1 ≤ length bs
    → effect (write k (pos o) bs 0) c ≡ splice o bs c
unfolding opcode payload trailer
journal_writes k o bs c some_bytes = by_frame (encode (write k (pos o) bs 0) 0) refl
  where
    by_frame :
        (t : Result Bytes)
        → encode (write k (pos o) bs 0) 0 ≡ t
        → run_encoded t (write k (pos o) bs 0) c ≡ splice o bs c
    by_frame (ok frame) e =
        let l = encode-Layout (write k (pos o) bs 0) 0 frame e in
        rw
          (
            read_opcode (write k (pos o) bs 0) 0 frame l,
            offset_of k o bs frame l,
            frame_split (write k (pos o) bs 0) 0 frame l,
            append-nil l.body,
            sym (ok-injective _ l.body l.body_from),
          )
          refl
    by_frame (err e) q = refl
