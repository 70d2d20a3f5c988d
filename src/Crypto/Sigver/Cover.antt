-- ===== src/Crypto/Sigver/Cover.antt =====
-- What a signature covers.
use py_xroot_dclient.Proto.Frames.{encode}
use py_xroot_dclient.Errors.{ok, ok-injective}
use py_xroot_dclient.Proto.Frames.Layout.{
  Layout, read_dlen, frame_split, length-frame, encode-Layout, read_opcode,
}
use mathlib.Core.List.{append-nil}
use py_xroot_dclient.Proto.Buffer.{pack_unsigned, be}
use native.Mathlib.Nat.{add-zero}
use py_xroot_dclient.Crypto.Sigver.{sign_required, signed_part, Hmac, Signer, sign, required}
use py_xroot_dclient.Base.{
  Bytes, take, ◌≡◌, length, [], ◌+◌, ◌⊎◌, ◌++◌, inl, inr, refl, take-length, ℕ, take_all, arith,
  ◌<◌, ◌^◌, some, le→ltb, ◌-◌, lt→ltb, ap, ◌∙◌, true, false, none, sym,
}
use py_xroot_dclient.Proto.Requests.{path_data, Request, trailer, writev, chkpoint, payload, opcode}

-- No request has both path data and a trailer.
path_data-trailer : (r : Request) → (path_data r ≡ []) ⊎ (trailer r ≡ [])
unfolding path_data trailer
path_data-trailer (writev _ _) = inl refl
path_data-trailer (chkpoint _ _ _ _) = inl refl
path_data-trailer _ = inr refl

-- `dlen` bytes behind the header are the payload, whether the rest travels on a data path or
-- follows as a trailer.
counted_bytes :
    (r : Request) (body : Bytes)
    → take (length body + length (path_data r)) (body ++ trailer r) ≡ body
counted_bytes r body = elim (path_data-trailer r) [
  | inl e ↦ rw (e, add-zero (length body)) (take-length body (trailer r))
  | inr e ↦
      rw (e, append-nil body) (take_all (length body + length (path_data r)) body (omega arith))
]

module _ (r : Request) (streamid : ℕ) (frame : Bytes) (l : Layout r streamid frame) where
  counted : ℕ
  counted = length l.body + length (path_data r)

  counted-back : take (24 + counted - 24) (l.body ++ trailer r) ≡ l.body
  unfolding counted
  counted-back = ap (λ (n : ℕ). take n (l.body ++ trailer r)) (omega arith) ∙ counted_bytes r l.body

  signed_part_lem : signed_part frame ≡ l.body
  unfolding signed_part counted
  signed_part_lem =
      rw
        (
          read_dlen r streamid frame l,
          frame_split r streamid frame l,
          lt→ltb (length l.body + length (path_data r)) 2147483648 (omega (arith, l.dlen_fits)),
        )
        counted-back

  module _ (hmac : Hmac) (s : Signer) (fits : s.seqno + 1 < 2 ^ 64) where
    sign_required_lem : sign_required hmac frame s ≡ (
      ok (some (s.seqno + 1, hmac s.key (be 8 (s.seqno + 1) ++ (take 24 frame ++ l.body)))),
      record s { seqno = s.seqno + 1 },
    )
    unfolding sign_required pack_unsigned
    sign_required_lem =
        rw
          (
            le→ltb (length frame) 24 (omega (arith, length-frame r streamid frame l)),
            lt→ltb (s.seqno + 1) (2 ^ 64) fits,
            signed_part_lem,
          )
          refl

-- The signature of an encoded request that the level covers: it takes the next sequence number,
-- and the MAC is over that number in 8 bytes, the frame's 24-byte header and the payload; the
-- trailer, and what travels on a data path, are not in it.
pub sign-encode :
    (hmac : Hmac) (s : Signer) (r : Request) (streamid : ℕ) (frame body : Bytes)
    → encode r streamid ≡ ok frame
    → payload r ≡ ok body
    → required s (opcode r) ≡ true
    → s.seqno + 1 < 2 ^ 64
    → sign hmac frame s ≡ (
      ok (some (s.seqno + 1, hmac s.key (be 8 (s.seqno + 1) ++ (take 24 frame ++ body)))),
      record s { seqno = s.seqno + 1 },
    )
unfolding sign
sign-encode hmac s r streamid frame body e eb req fits =
    let l : Layout r streamid frame = encode-Layout r streamid frame e in
    rw
      (
        le→ltb (length frame) 4 (omega (arith, length-frame r streamid frame l)),
        read_opcode r streamid frame l,
        req,
        sign_required_lem r streamid frame l hmac s fits,
        ok-injective l.body body (sym l.body_from ∙ eb),
      )
      refl

-- A frame that the level does not cover is not signed, and uses up no sequence number.
pub sign-encode-none :
    (hmac : Hmac) (s : Signer) (r : Request) (streamid : ℕ) (frame : Bytes)
    → encode r streamid ≡ ok frame
    → required s (opcode r) ≡ false
    → sign hmac frame s ≡ (ok none, s)
unfolding sign
sign-encode-none hmac s r streamid frame e req =
    let l : Layout r streamid frame = encode-Layout r streamid frame e in
    rw
      (
        le→ltb (length frame) 4 (omega (arith, length-frame r streamid frame l)),
        read_opcode r streamid frame l,
        req,
      )
      refl
